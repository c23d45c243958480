-- ===== src/Replies/Configured.antt =====
-- lib/linyaps_dbus_msg.c: parse_repo_variant and configured_repos_csv, which read the configuration of
-- the package manager.
pub mod Entries
pub mod Errors
pub mod Refused
pub mod Chosen
use linyaps_store.Base.{
  ℕ, Option, none, some, List, [], ◌∷◌, Bool, true, false, ◌&&◌, if◌then◌else◌, Run, ok, fault,
  ◌>>=◌, deref, Str, codes, same, ℤ, pos, is_negative, is_zero, length, Allocator,
}
use linyaps_store.Repos.{csv_append}
use linyaps_store.Replies.{
  Container, Entry, Item, is_sig, Read, if_taken, read_variant_string, read_elements,
  read_container, leave_entry,
}

-- The names of a repository
pub record Names : Type 0 where
  pub name : Option Str
  pub alias : Option Str

abbrev pub no_names : Names
no_names = record { name = none; alias = none }

pub name_value : Allocator → ℕ → Str → Item → Names → Read Names
name_value a i key it s =
    if same key (codes "alias")
    then read_variant_string a i it (λ t. record s { alias = t }) s
    else if same key (codes "name")
    then read_variant_string a i it (λ t. record s { name = t }) s
    else (it.skip, s)

-- What reading the key returns is not looked at, so the key may be NULL.
pub name_entry : Allocator → ℕ → Item → Names → Run (Read Names)
unfolding name_value
name_entry a i it s = deref it.key >>= λ key. ok (leave_entry it.entry (name_value a i key it s))

-- A repository of the configuration: entering its variant, its map, and leaving the variant
pub record RepoVariant : Type 0 where
  pub enter : ℤ
  pub map : Container Item
  pub leave : ℤ

-- `alias ? alias : name`
abbrev pub alias_or : Option Str → Option Str → Option Str
alias_or none name = name
alias_or (some alias) name = some alias

-- What is appended when the map has been read; the Boolean is whether `realloc` has memory.
pub append_name : Bool → RepoVariant → Option Str → Read Names → Read (Option Str)
append_name gives v csv (r, s) =
    if_taken r csv (if_taken v.leave csv (csv_append gives csv (alias_or s.alias s.name)))

-- The memory for each repository of an array is given by its number from the end.
pub parse_repo_variant :
    (gives : ℕ → Bool)
    → (memory : ℕ → Allocator) → ℕ
    → RepoVariant
    → Option Str
    → Run (Read (Option Str))
unfolding name_entry append_name
parse_repo_variant gives memory n v csv =
    if is_negative v.enter
    then ok (v.enter, csv)
    else (read_container (name_entry (memory n)) v.map no_names >>= λ read.
        ok (append_name (gives n) v csv read))

-- An entry of the configuration; `repos` is read if it has the repositories, between `enter` and
-- `leave_variant`. Its `last` is positive if something else than a variant comes next.
pub record Setting : Type 0 where
  pub item : Item
  pub enter : ℤ
  pub repos : Container RepoVariant
  pub leave_variant : ℤ

-- Leaving the array, when the type of what comes next is known
pub leave_array : Setting → Read (Option Str) → Read (Option Str)
leave_array e (r, csv) = if_taken r csv (
    if_taken e.repos.last csv (
      if_taken (if is_zero e.repos.last then e.repos.leave else e.repos.last) csv
        (e.leave_variant, csv)))

pub read_array :
    (gives : ℕ → Bool) → (memory : ℕ → Allocator) → Setting → Option Str → Run (Read (Option Str))
unfolding leave_array
read_array gives memory e csv =
    if is_negative e.enter
    then ok (e.enter, csv)
    else if is_negative e.repos.enter
    then ok (e.repos.enter, csv)
    else (read_elements (parse_repo_variant gives memory) e.repos.elements csv >>= λ read.
        ok (leave_array e read))

-- Whether a setting has the repositories
abbrev pub has_repos : Str → Option Str → Bool
has_repos key sig = same key (codes "repos") && is_sig (codes "av") sig

-- After the loop: an error gives NULL, and what leaving the configuration returns is not looked at.
pub csv_read : ℤ → Read (Option Str) → Option Str
csv_read last (r, csv) = if is_negative r then none else if is_negative last then none else csv

-- The memory, by the number of the setting and of the repository in it
module _ (gives : ℕ → ℕ → Bool) (memory : ℕ → ℕ → Allocator) where
  pub read_setting : ℕ → Setting → Option Str → Run (Read (Option Str))
  unfolding read_array
  read_setting n e csv = do
    key ← deref e.item.key
    read ←
        if has_repos key e.item.sig
        then read_array (gives n) (memory n) e csv
        else ok (e.item.skip, csv)
    ok (leave_entry e.item.entry read)

  -- `answer` is what the call for the property returns.
  pub configured_repos_csv : (answer : ℤ) → Container Setting → Run (Option Str)
  unfolding read_setting csv_read
  configured_repos_csv answer settings =
      if is_negative answer
      then ok none
      else if is_negative settings.enter
      then ok none
      else (read_elements read_setting settings.elements none >>= λ read.
          ok (csv_read settings.last read))
