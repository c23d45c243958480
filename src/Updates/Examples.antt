-- ===== src/Updates/Examples.antt =====
-- Updates at concrete packages, and the theorems at these inputs.
use linyaps_store.Base.{
  ◌≡◌, refl, none, some, Option, List, [], ◌∷◌, true, false, ok, Returns, Str, codes, length, arith,
  same, strcmp,
}
use mathlib.Core.Option.{or_else}
use linyaps_store.Base.Memory.{plenty, plenty-IsPlenty}
use linyaps_store.Types.{PackageInfo, blank_info}
use linyaps_store.IdMap.Client.{last_version}
use linyaps_store.Updates.{StoreUpdateItem, check_updates, on_update_finished, shift}
use linyaps_store.Updates.Check.{offers, offer, installed_version, check_updates-offers}
use linyaps_store.Updates.Remove.{Items, without, on_update_finished-without}

-- What the tests compute with.
program : Unit {0}
unfolding or_else offers offer installed_version last_version same strcmp on_update_finished shift
program = tt

abbrev package_of : Str → Str → Option PackageInfo
package_of id version = some (record blank_info { id = some id; version = some version })

abbrev installed : List (Option PackageInfo)
installed = package_of (codes "vim") (codes "9.0") ∷ none ∷ []

abbrev remote : List (Option PackageInfo)
remote =
    package_of (codes "vim") (codes "9.1")
    ∷ some blank_info
    ∷ package_of (codes "mpv") (codes "1")
    ∷ []

abbrev item_of : Str → Str → Str → StoreUpdateItem
item_of id current version = record {
  id = some id;
  name = some id;
  current_version = some current;
  new_version = some version;
  channel = some (codes "main");
  updating = false;
  progress_int = 0;
  task_path = none;
}

abbrev vim : StoreUpdateItem
vim = item_of (codes "vim") (codes "9.0") (codes "9.1")

abbrev mpv : StoreUpdateItem
mpv = item_of (codes "mpv") (codes "0.0.0") (codes "1")

offered : offers installed remote ≡ vim ∷ mpv ∷ []
unfolding program
offered = refl

finished : on_update_finished (some (vim ∷ mpv ∷ [])) 2 0 ≡ ok (some (mpv ∷ mpv ∷ []), 1)
unfolding program
finished = refl

check_updates-offers_example :
    check_updates (λ _. plenty) (λ _. plenty) true installed remote ≡ ok (offers installed remote)
check_updates-offers_example =
    check_updates-offers (λ _. plenty) (λ _. plenty) installed remote (λ _. plenty-IsPlenty)
      (λ _. plenty-IsPlenty) (omega arith)

abbrev shown : Items
shown = vim ∷ mpv ∷ []

on_update_finished-without_example : Returns (on_update_finished (some shown) (length shown) 0) λ r.
    (r.1 ≡ length (without shown 0)) × ((last : StoreUpdateItem) × (r.0 ≡ some (mpv ∷ last ∷ [])))
on_update_finished-without_example = on_update_finished-without shown 0 (omega arith)
