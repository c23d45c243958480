-- ===== src/Remote/Records.antt =====
-- lib/linyaps_remote.c: from a JSON value to the packages of the catalogue (jdup, jint64,
-- parse_record, parse_records_array, linyaps_remote_app_info_to_package_info). cJSON is a parameter.
pub mod Lists
pub mod Parsed
use linyaps_store.Base.{
  ℕ, zero, suc, Option, none, some, List, [], ◌∷◌, Bool, true, false, not, ◌&&◌, if◌then◌else◌, ltb,
  ◌==◌, mul_size, Run, fault, out_of_bounds, ok, ◌>>=◌, Str, codes, ℤ, pos, is_zero, set, length,
  ◌++◌, ◌/◌, Allocator,
}
use linyaps_store.Json.{Json, string_of, number_of}
use linyaps_store.Types.{PackageInfo, blank_info}

-- `LinyapsRemoteAppInfo`
pub record RemoteAppInfo : Type 0 where
  pub base : PackageInfo
  pub icon_url : Option Str
  pub zh_name : Option Str
  pub category_id : Option Str
  pub category_name : Option Str

-- `sizeof(LinyapsRemoteAppInfo)`
abbrev pub info_size : ℕ
info_size = 160

-- The list that parse_records_array builds: its elements, `cap`, and for how many its memory has
-- room; the list is NULL while there is no room.
pub record Listing : Type 0 where
  pub list : List RemoteAppInfo
  pub cap : ℕ
  pub room : ℕ

abbrev pub empty_listing : Listing
empty_listing = record { list = []; cap = 0; room = 0 }

-- `list[count++] = info`
pub store_record : RemoteAppInfo → Listing → Run (Bool × Listing)
store_record info s =
    if ltb (length s.list) s.room
    then ok (true, record s { list = s.list ++ info ∷ [] })
    else fault out_of_bounds

abbrev pub next_cap : ℕ → ℕ
next_cap cap = if cap == 0 then 32 else mul_size cap 2

-- Storing one record; false where the code leaves the loop. `gives` says for which sizes `realloc`
-- returns memory.
pub add_record : (gives : ℕ → Bool) (info : RemoteAppInfo) (s : Listing) → Run (Bool × Listing)
unfolding store_record
add_record gives info s =
    let cap = next_cap s.cap in
    let size = mul_size cap 8 in
    if ltb (length s.list) s.cap
    then store_record info s
    else if gives size
    then store_record info (record s { cap = cap; room = size / 8 })
    else ok (false, record s { cap = cap })

pub list_pointer : Listing → Option (List RemoteAppInfo)
list_pointer s = if s.room == 0 then none else some s.list

-- `strdup` of a string unless that is NULL, with its number among the calls of an operation
pub dup : Allocator → ℕ → Option Str → Option Str
dup a i none = none
dup a i (some s) = if a.strdup i s then some s else none

-- `if (!field) field = jdup(...)`
abbrev pub or_else : Option Str → Option Str → Option Str
or_else (some s) t = some s
or_else none t = t

-- `if (field == 0) field = jint64(...)`
pub or_nonzero : ℤ → ℤ → ℤ
or_nonzero n m = if is_zero n then m else n

-- `if (info->zh_name && *info->zh_name && !info->base.name)`
pub name_of : Allocator → Option Str → Option Str → Option Str
unfolding dup
name_of a (some n) zh = some n
name_of a none none = none
name_of a none (some []) = none
name_of a none (some (b ∷ bs)) = dup a 23 (some (b ∷ bs))

-- A record without an id is freed.
pub with_id : Option Str → RemoteAppInfo → Option RemoteAppInfo
with_id none info = none
with_id (some id) info = some info

-- `sizeof(LinyapsPackageInfo)`
abbrev pub package_size : ℕ
package_size = 128

pub linyaps_remote_app_info_to_package_info : Allocator → Option RemoteAppInfo → Option PackageInfo
unfolding dup
linyaps_remote_app_info_to_package_info a none = none
linyaps_remote_app_info_to_package_info a (some info) =
    let b = info.base in
    let p : PackageInfo = record {
      id = dup a 0 b.id;
      name = dup a 1 b.name;
      version = dup a 2 b.version;
      arch = dup a 3 b.arch;
      channel = dup a 4 b.channel;
      repo = dup a 5 b.repo;
      description = dup a 6 b.description;
      kind = dup a 7 b.kind;
      module_name = dup a 8 b.module_name;
      base = dup a 9 b.base;
      runtime = dup a 10 b.runtime;
      schema_version = dup a 11 b.schema_version;
      command = dup a 12 b.command;
      size = b.size;
      create_time = dup a 13 b.create_time;
      download_count = b.download_count;
    } in
    if a.calloc 1 package_size then some p else none

module _ (j : Json) where
  open j use {Value, item, atoll}

  pub jdup : Allocator → ℕ → Value → Str → Option Str
  unfolding dup
  jdup a i obj field = dup a i (string_of j (item obj field))

  pub number_or : Option ℤ → Option Str → ℤ
  number_or (some n) s = n
  number_or none (some s) = atoll s
  number_or none none = pos 0

  pub jint64 : Value → Str → ℤ
  unfolding number_or
  jint64 obj field = number_or (number_of j (item obj field)) (string_of j (item obj field))

  -- All fields of a record; the calls of `strdup` are numbered as they stand in the code.
  pub read_record : Allocator → Value → RemoteAppInfo
  unfolding jdup jint64 or_nonzero name_of
  read_record a obj =
      let zh = jdup a 17 obj (codes "zhName") in
      let base : PackageInfo = record blank_info {
        id = jdup a 0 obj (codes "appId");
        name =
            name_of a
              (or_else (jdup a 1 obj (codes "zhName"))
                (or_else (jdup a 2 obj (codes "appName")) (jdup a 3 obj (codes "name"))))
              zh;
        version = or_else (jdup a 4 obj (codes "version")) (jdup a 5 obj (codes "appVersion"));
        arch = jdup a 6 obj (codes "arch");
        channel = jdup a 7 obj (codes "channel");
        repo = jdup a 8 obj (codes "repoName");
        description =
            or_else (jdup a 9 obj (codes "description")) (jdup a 10 obj (codes "appDesc"));
        kind = jdup a 11 obj (codes "kind");
        module_name = jdup a 12 obj (codes "module");
        runtime = jdup a 13 obj (codes "runtime");
        size = or_nonzero (jint64 obj (codes "size")) (jint64 obj (codes "packageSize"));
        create_time =
            or_else (jdup a 20 obj (codes "createTime")) (jdup a 21 obj (codes "updateTime"));
        download_count =
            or_nonzero (jint64 obj (codes "installCount")) (jint64 obj (codes "downloadTimes"));
      } in
      record {
        base = base;
        icon_url = or_else (jdup a 15 obj (codes "icon")) (jdup a 16 obj (codes "appIcon"));
        zh_name = zh;
        category_id = jdup a 18 obj (codes "categoryId");
        category_name = jdup a 19 obj (codes "categoryName");
      }

  pub parse_record : Allocator → Value → Option RemoteAppInfo
  unfolding read_record with_id
  parse_record a obj =
      let info = read_record a obj in
      if a.calloc 1 info_size then with_id info.base.id info else none

  pub parse_later :
      (ℕ → Bool) → Option RemoteAppInfo → Listing → (Listing → Run Listing) → Run Listing
  parse_later gives none s rest = rest s
  parse_later gives (some info) s rest = do
    (more, t) ← add_record gives info s
    if more then rest t else ok t

  -- The loop; the memory of the n-th item from the end is that of `memory n`.
  pub parse_items : (ℕ → Bool) → (ℕ → Allocator) → List Value → Listing → Run Listing
  unfolding parse_later
  parse_items gives memory [] s = ok s
  parse_items gives memory (v ∷ vs) s =
      parse_later gives (parse_record (memory (length vs)) v) s (parse_items gives memory vs)

  pub parse_records_array :
      (ℕ → Bool) → (ℕ → Allocator) → List Value → Run (Option (List RemoteAppInfo) × ℕ)
  parse_records_array gives memory vs = do
    s ← parse_items gives memory vs empty_listing
    ok (list_pointer s, length s.list)
