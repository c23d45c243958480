-- ===== src/Filter/Keep.antt =====
-- What the filter is to do, on lists: keep one package for each slot.
use linyaps_store.Base.{Option, none, some, List, [], ◌∷◌, if◌then◌else◌}
use linyaps_store.Types.{PackageInfo}
use linyaps_store.Filter.{same_package_slot, is_develop, is_older}

-- A candidate joins the kept packages: in place of the first one of its slot if that is older,
-- behind them all if no one has its slot.
unfoldable pub absorb : PackageInfo → List PackageInfo → List PackageInfo
absorb c [] = c ∷ []
absorb c (x ∷ kept) =
    if same_package_slot x c then (if is_older x c then c else x) ∷ kept else x ∷ absorb c kept

unfoldable pub keep : List PackageInfo → List (Option PackageInfo) → List PackageInfo
keep kept [] = kept
keep kept (none ∷ list) = keep kept list
keep kept (some c ∷ list) = keep (if is_develop c then kept else absorb c kept) list
