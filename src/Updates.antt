-- ===== src/Updates.antt =====
-- ui/main.c: the check for updates, and the list of updates that the user sees. An update is told
-- from others by its place in the array that the store holds.
pub mod Check
pub mod Remove
mod Examples
use linyaps_store.Base.{
  ℕ, zero, suc, ◌+◌, ◌-◌, Option, none, some, List, [], ◌∷◌, Bool, true, false, Run, ok, ◌>>=◌,
  read, set, ltb, ◌==◌, if◌then◌else◌, Str, codes, length, Allocator,
}
use linyaps_store.Types.{PackageInfo}
use linyaps_store.IdMap.{IdMap, init, free, get, build_from_packages}

-- The flags are atomic; the progress is a percentage.
pub record StoreUpdateItem : Type 0 where
  pub id : Option Str
  pub name : Option Str
  pub current_version : Option Str
  pub new_version : Option Str
  pub channel : Option Str
  pub updating : Bool
  pub progress_int : ℕ
  pub task_path : Option Str

-- The i-th `strdup` of an item.
abbrev copy : Allocator → ℕ → Str → Option Str
copy a i s = if a.strdup i s then some s else none

abbrev pub or_default : Option Str → Str → Str
or_default none d = d
or_default (some s) d = s

-- The item for a package of the catalogue with this id and version.
unfoldable pub update_item : Allocator → Str → Str → Option Str → PackageInfo → StoreUpdateItem
update_item a id version current_ver p = record {
  id = copy a 0 id;
  name = copy a 1 (or_default p.name id);
  current_version = copy a 2 (or_default current_ver (codes "0.0.0"));
  new_version = copy a 3 version;
  channel = copy a 4 (or_default p.channel (codes "main"));
  updating = false;
  progress_int = 0;
  task_path = none;
}

-- The loop of `check_updates_real_thread` over what the catalogue answers. It fills its array in
-- order, so the array is the list of its items.
unfoldable pub collect :
    (ℕ → Allocator) → ℕ → IdMap → List (Option PackageInfo) → Run (List StoreUpdateItem)
collect a i m [] = ok []
collect a i m (none ∷ remote) = collect a (i + 1) m remote
collect a i m (some p ∷ remote) =
    let rest = collect a (i + 1) m remote in
    elim p.id [
      | none ↦ rest
      | some id ↦ elim p.version [
        | none ↦ rest
        | some version ↦ do
          current_ver ← get m (some id)
          items ← rest
          ok (update_item (a i) id version current_ver p ∷ items)
      ]
    ]

-- `check_updates_real_thread` with something installed: the items that it posts. The allocator
-- answers for the map, then for the items; `memory` is whether there is any for their array.
unfoldable pub check_updates :
    (for_map for_items : ℕ → Allocator) (memory : Bool)
    (installed remote : List (Option PackageInfo))
    → Run (List StoreUpdateItem)
check_updates for_map for_items memory installed remote = do
  m ← build_from_packages for_map init installed
  items ← (if memory then collect for_items 0 m remote else ok [])
  m' ← free m
  ok items

-- The loop of `handle_user_event` that moves the items behind the i-th one down, `n` rounds.
unfoldable pub shift : ℕ → ℕ → List StoreUpdateItem → Run (List StoreUpdateItem)
shift zero i list = ok list
shift (suc n) i list = read list (i + 1) >>= λ item. shift n (i + 1) (set list i item)

-- `handle_user_event` at EVT_UPDATE_ITEM_FINISHED, for the item at the index `i` of the array: the
-- array and the number of its items that are left.
unfoldable pub on_update_finished :
    Option (List StoreUpdateItem) → ℕ → ℕ → Run (Option (List StoreUpdateItem) × ℕ)
on_update_finished none count i = ok (none, count)
on_update_finished (some list) count i =
    if ltb i count
    then (shift (count - 1 - i) i list >>= λ list'.
        ok (if (count - 1) == 0 then (none, 0) else (some list', count - 1)))
    else ok (some list, count)
