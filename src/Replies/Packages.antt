-- ===== src/Replies/Packages.antt =====
-- lib/linyaps_dbus_msg.c: parse_package_map and parse_search_reply.
pub mod Added
pub mod Listed
use linyaps_store.Base.{
  ℕ, Option, none, some, Bool, ◌&&◌, if◌then◌else◌, Run, ok, ◌>>=◌, deref, Str, codes, same, ℤ, pos,
  is_negative, minus_enomem, length, Allocator,
}
use linyaps_store.Types.{PackageInfo, blank_info}
use linyaps_store.Context.Signals.{dupstr}
use linyaps_store.Local.Packages.{PackageList, empty_list, package_list_append}
use linyaps_store.Replies.{
  Container, Item, is_sig, Read, if_taken, read_variant_string, read_variant_int64,
  read_variant_first_string_array, read_container, leave_entry,
}

-- The chain of comparisons of the key
package_value : Allocator → ℕ → Str → Item → PackageInfo → Read PackageInfo
package_value a i key it info =
    if same key (codes "id")
    then read_variant_string a i it (λ s. record info { id = s }) info
    else if same key (codes "name")
    then read_variant_string a i it (λ s. record info { name = s }) info
    else if same key (codes "version")
    then read_variant_string a i it (λ s. record info { version = s }) info
    else if same key (codes "channel")
    then read_variant_string a i it (λ s. record info { channel = s }) info
    else if same key (codes "kind")
    then read_variant_string a i it (λ s. record info { kind = s }) info
    else if same key (codes "packageInfoV2Module")
    then read_variant_string a i it (λ s. record info { module_name = s }) info
    else if same key (codes "description")
    then read_variant_string a i it (λ s. record info { description = s }) info
    else if same key (codes "base")
    then read_variant_string a i it (λ s. record info { base = s }) info
    else if same key (codes "runtime")
    then read_variant_string a i it (λ s. record info { runtime = s }) info
    else if same key (codes "schema_version")
    then read_variant_string a i it (λ s. record info { schema_version = s }) info
    else if same key (codes "command")
    then read_variant_first_string_array a i it (λ s. record info { command = s }) info
    else if same key (codes "arch")
    then read_variant_first_string_array a i it (λ s. record info { arch = s }) info
    else if same key (codes "size")
    then read_variant_int64 it (λ n. record info { size = n }) info
    else (it.skip, info)

-- What reading the key returns is not looked at, so the key may be NULL.
pub package_entry : Allocator → ℕ → Item → PackageInfo → Run (Read PackageInfo)
unfolding package_value
package_entry a i it info =
    deref it.key >>= λ key. ok (leave_entry it.entry (package_value a i key it info))

-- What `*out_info` becomes, from the answer of the loop: a package whose map is not read to its end is
-- freed.
package_of : Read PackageInfo → ℤ × Option PackageInfo
package_of (r, info) = if is_negative r then (r, none) else (pos 0, some info)

-- `sizeof(LinyapsPackageInfo)`
abbrev pub package_size : ℕ
package_size = 128

-- The map, when its container is entered
read_map : Allocator → Option Str → Container Item → Run (ℤ × Option PackageInfo)
unfolding package_entry package_of
read_map a repo map =
    if a.calloc 1 package_size
    then (read_container (package_entry a) map
          (record blank_info { repo = dupstr a (length map.elements) repo })
        >>= λ read. ok (package_of read))
    else ok (minus_enomem, none)

pub parse_package_map : Allocator → Option Str → Container Item → Run (ℤ × Option PackageInfo)
unfolding read_map
parse_package_map a repo map =
    if is_negative map.enter then ok (map.enter, none) else read_map a repo map

-- A package in the reply: its map, and leaving its variant
pub record PackageVariant : Type 0 where
  pub map : Container Item
  pub leave : ℤ

-- The packages of a repository: its name, entering the variant, the array, and leaving the variant
-- and the entry
pub record RepoEntry : Type 0 where
  pub repo : Option Str
  pub enter : ℤ
  pub packages : Container PackageVariant
  pub leave_variant : ℤ
  pub leave : ℤ

-- An entry of the reply; `repos` is read if it has the packages, between `enter` and `leave_variant`.
pub record ReplyEntry : Type 0 where
  pub item : Item
  pub enter : ℤ
  pub repos : Container RepoEntry
  pub leave_variant : ℤ

pub record Found : Type 0 where
  pub items : PackageList
  pub code : ℤ
  pub message : Option Str

abbrev pub nothing_found : Found
nothing_found = record { items = empty_list; code = pos 0; message = none }

-- `if (r >= 0 && info) package_list_append(&items, &count, &cap, info);`
keep_package : (gives : ℕ → Bool) → Option PackageInfo → Found → Run Found
keep_package gives none s = ok s
keep_package gives (some info) s = do
  items ← package_list_append gives info s.items
  ok (record s { items = items })

-- A package, with the memory of `realloc` and that of each package by its number from the end of its
-- repository
pub read_package :
    (gives : ℕ → Bool)
    → (memory : ℕ → Allocator) → Option Str
    → ℕ
    → PackageVariant
    → Found
    → Run (Read Found)
unfolding keep_package
read_package gives memory repo n v s = do
  (r, info) ← parse_package_map (memory n) repo v.map
  t ← keep_package gives info s
  ok (if_taken r s (v.leave, t))

-- The memory of a reply: that of the packages by the number of their entry and of their repository,
-- and that of the entries
module _ (gives : ℕ → Bool) (memory : ℕ → ℕ → ℕ → Allocator) (texts : Allocator) where
  pub read_repo : ℕ → ℕ → RepoEntry → Found → Run (Read Found)
  unfolding read_package
  read_repo i n e s =
      if is_negative e.enter
      then ok (e.enter, s)
      else (read_container (read_package gives (memory i n) e.repo) e.packages s >>= λ read.
          ok (if_taken read.0 read.1 (if_taken e.leave_variant read.1 (e.leave, read.1))))

  pub read_packages : ℕ → ReplyEntry → Found → Run (Read Found)
  unfolding read_repo
  read_packages i e s =
      if is_negative e.enter
      then ok (e.enter, s)
      else (read_container (read_repo i) e.repos s >>= λ read.
          ok (if_taken read.0 read.1 (e.leave_variant, read.1)))

  reply_value : ℕ → Str → ReplyEntry → Found → Run (Read Found)
  unfolding read_packages
  reply_value n key e s =
      if same key (codes "code")
      then ok (read_variant_int64 e.item (λ c. record s { code = c }) s)
      else if same key (codes "message")
      then ok (read_variant_string texts n e.item (λ t. record s { message = t }) s)
      else if same key (codes "packages") && is_sig (codes "a{sv}") e.item.sig
      then read_packages n e s
      else ok (e.item.skip, s)

  pub reply_entry : ℕ → ReplyEntry → Found → Run (Read Found)
  unfolding reply_value
  reply_entry n e s = do
    key ← deref e.item.key
    read ← reply_value n key e s
    ok (leave_entry e.item.entry read)

  -- What the addresses become: nothing on an error, after which everything is freed.
  pub found_of : Read Found → ℤ × Option Found
  found_of (r, s) = if is_negative r then (r, none) else (pos 0, some s)

  pub parse_search_reply : Container ReplyEntry → Run (ℤ × Option Found)
  unfolding reply_entry found_of
  parse_search_reply reply =
      read_container reply_entry reply nothing_found >>= λ read. ok (found_of read)
