-- ===== src/Local/Packages.antt =====
-- lib/linyaps_local.c: json_dup_string, json_int64, json_first_string,
-- package_info_from_json_object and parse_states_json; package_list_append of lib/linyaps_util.c.
pub mod Lists
pub mod Apps
use linyaps_store.Base.{
  ℕ, zero, suc, ◌++◌, Option, none, some, List, [], ◌∷◌, Bool, true, false, if◌then◌else◌, ltb,
  ◌==◌, ◌/◌, mul_size, Run, fault, out_of_bounds, ok, ◌>>=◌, Str, codes, same, ℤ, pos, length,
  Allocator,
}
use linyaps_store.Types.{PackageInfo, blank_info}
use linyaps_store.Json.{Json, item_of, string_of, number_of, array_of, first_of}

-- The list under construction: its elements, `cap`, and for how many its memory has room.
pub record PackageList : Type 0 where
  pub items : List PackageInfo
  pub cap : ℕ
  pub room : ℕ

abbrev pub empty_list : PackageList
empty_list = record { items = []; cap = 0; room = 0 }

-- `(*items)[(*count)++] = info`
pub store : PackageInfo → PackageList → Run PackageList
store info l =
    if ltb (length l.items) l.room
    then ok (record l { items = l.items ++ info ∷ [] })
    else fault out_of_bounds

abbrev pub next_cap : ℕ → ℕ
next_cap cap = if cap == 0 then 16 else mul_size cap 2

-- `gives` says for which sizes `realloc` returns memory; a package without memory is freed.
pub package_list_append : (gives : ℕ → Bool) → PackageInfo → PackageList → Run PackageList
unfolding store
package_list_append gives info l =
    let next = next_cap l.cap in
    let size = mul_size next 8 in
    if length l.items == l.cap
    then (if gives size then store info (record l { cap = next; room = size / 8 }) else ok l)
    else store info l

pub list_pointer : PackageList → Option (List PackageInfo)
list_pointer l = if l.room == 0 then none else some l.items

pub append_if : (ℕ → Bool) → Option PackageInfo → PackageList → Run PackageList
append_if gives none l = ok l
append_if gives (some info) l = package_list_append gives info l

-- `sizeof(LinyapsPackageInfo)`
abbrev pub package_size : ℕ
package_size = 128

-- `dupstr`, with its number among the calls of an operation
pub dupstr : Allocator → ℕ → Option Str → Option Str
dupstr a i none = none
dupstr a i (some s) = if a.strdup i s then some s else none

abbrev pub or_0 : Option ℤ → ℤ
or_0 none = pos 0
or_0 (some n) = n

-- A package without an id is freed.
pub with_id : Option Str → PackageInfo → Option PackageInfo
with_id none info = none
with_id (some id) info = some info

-- A value and the value of the layer that it stands in
abbrev pub or_item {ℓ} : {A : Type ℓ} → Option A → A → A
or_item none item = item
or_item (some v) item = v

-- `const char *repo = "local"; if (cJSON_IsString(repo_obj)) repo = repo_obj->valuestring;`
pub repo_or_local : Option Str → Str
repo_or_local none = codes "local"
repo_or_local (some repo) = repo

-- `cJSON_IsString(kind) && strcmp(kind->valuestring, "app") != 0`
pub is_other_kind : Option Str → Bool
is_other_kind none = false
is_other_kind (some kind) = if same kind (codes "app") then false else true

module _ (j : Json) where
  open j use {Value, item, array, is_object}

  pub json_dup_string : Allocator → ℕ → Value → Str → Option Str
  unfolding dupstr
  json_dup_string a i obj field = dupstr a i (string_of j (item obj field))

  pub json_int64 : Value → Str → ℤ
  json_int64 obj field = or_0 (number_of j (item obj field))

  pub json_first_string : Allocator → ℕ → Value → Str → Option Str
  unfolding dupstr
  json_first_string a i obj field = dupstr a i (string_of j (first_of j (item obj field)))

  pub read_package : Allocator → Value → Str → PackageInfo
  unfolding json_dup_string json_int64 json_first_string dupstr
  read_package a obj repo = record blank_info {
    id = json_dup_string a 0 obj (codes "id");
    name = json_dup_string a 1 obj (codes "name");
    version = json_dup_string a 2 obj (codes "version");
    channel = json_dup_string a 3 obj (codes "channel");
    description = json_dup_string a 4 obj (codes "description");
    kind = json_dup_string a 5 obj (codes "kind");
    module_name = json_dup_string a 6 obj (codes "module");
    arch = json_first_string a 7 obj (codes "arch");
    base = json_dup_string a 8 obj (codes "base");
    runtime = json_dup_string a 9 obj (codes "runtime");
    schema_version = json_dup_string a 10 obj (codes "schema_version");
    command = json_first_string a 11 obj (codes "command");
    repo = dupstr a 12 (some repo);
    size = json_int64 obj (codes "size");
  }

  unfoldable pub package_info_from_json_object : Allocator → Value → Str → Option PackageInfo
  unfolding read_package with_id
  package_info_from_json_object a obj repo =
      let info = read_package a obj repo in
      if a.calloc 1 package_size then with_id info.id info else none

  -- `if (!info_obj || !cJSON_IsObject(info_obj)) info_obj = item;`
  pub if_object : Option Value → Option Value
  if_object none = none
  if_object (some v) = if is_object v then some v else none

  pub info_of : Value → Value
  unfolding if_object
  info_of layer = or_item (if_object (item layer (codes "info"))) layer

  -- The body of the loop over the layers
  pub read_layer : (ℕ → Bool) → Allocator → Value → PackageList → Run PackageList
  unfolding info_of is_other_kind repo_or_local append_if
  read_layer gives a layer l =
      let obj = info_of layer in
      if is_other_kind (string_of j (item obj (codes "kind")))
      then ok l
      else append_if gives
          (package_info_from_json_object a obj
            (repo_or_local (string_of j (item layer (codes "repo")))))
          l

  -- The loop; the memory of the n-th layer from the end is that of `memory n`.
  pub read_layers : (ℕ → Bool) → (ℕ → Allocator) → List Value → PackageList → Run PackageList
  read_layers gives memory [] l = ok l
  read_layers gives memory (layer ∷ layers) l =
      read_layer gives (memory (length layers)) layer l >>= read_layers gives memory layers

  -- `layers`, or the old form in which the root is the array
  unfoldable pub layers_of : Value → Option (List Value) → Option (List Value)
  layers_of root (some layers) = some layers
  layers_of root none = array root

  pub read_all :
      (ℕ → Bool) → (ℕ → Allocator) → Option (List Value) → Run (Option (List PackageInfo) × ℕ)
  unfolding read_layers list_pointer
  read_all gives memory none = ok (none, 0)
  read_all gives memory (some layers) = do
    l ← read_layers gives memory layers empty_list
    ok (list_pointer l, length l.items)

  pub parse_states_json : (ℕ → Bool) → (ℕ → Allocator) → Value → Run (Option (List PackageInfo) × ℕ)
  unfolding read_all layers_of
  parse_states_json gives memory root =
      read_all gives memory (layers_of root (array_of j (item root (codes "layers"))))
