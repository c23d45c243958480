-- ===== src/Filter/Examples.antt =====
-- The filter on concrete results, and its theorems at this input.
use linyaps_store.Base.{
  ◌≡◌, refl, ◌+◌, none, some, List, [], ◌∷◌, ◌++◌, Str, codes, Returns, length, same, strcmp, false,
}
use linyaps_store.Types.{PackageInfo, blank_info}
use linyaps_store.Version.{
  is_digit, strtoll, read_version_number, compare_numbers, compare_versions,
}
use linyaps_store.Filter.{
  same_package_slot, is_develop, is_older, find_slot, settle, filter_one, filter_loop,
  filter_store_search_results,
}
use linyaps_store.Filter.Keep.{keep, absorb}
use linyaps_store.Filter.Arrays.{Pointers, pointers}
use linyaps_store.Filter.Refine.{filter-keep}
use linyaps_store.Filter.Results.{has_slot, has_result, Distinct, All, filter_results}

-- What the tests compute with.
program : Unit {0}
unfolding is_digit strtoll read_version_number compare_numbers compare_versions strcmp same
    same_package_slot is_develop is_older find_slot settle filter_one filter_loop
    filter_store_search_results keep absorb
program = tt

abbrev package_of : Str → Str → Str → PackageInfo
package_of id version m = record blank_info {
  id = some id;
  version = some version;
  module_name = some m;
}

abbrev results : Pointers
results =
    some (package_of (codes "code") (codes "1.9") (codes "binary"))
    ∷ none
    ∷ some (package_of (codes "code") (codes "1.9") (codes "develop"))
    ∷ some (package_of (codes "vim") (codes "9.1") (codes "binary"))
    ∷ some (package_of (codes "code") (codes "1.10") (codes "binary"))
    ∷ []

-- The newer version takes the place of the older one.
kept_versions :
    keep [] results
    ≡ package_of (codes "code") (codes "1.10") (codes "binary")
      ∷ package_of (codes "vim") (codes "9.1") (codes "binary")
      ∷ []
unfolding program
kept_versions = refl

filter-keep_example : Returns (filter_store_search_results (some results) 5) λ r.
    (left_over : Pointers) × (r
      ≡ (some (pointers (keep [] results) ++ left_over), length (keep [] results)))
    × (length (keep [] results) + length left_over ≡ 5)
filter-keep_example = filter-keep results

filter_results_example : Returns (filter_store_search_results (some results) 5) λ r.
    (kept : List PackageInfo) × (left_over : Pointers) × (r
      ≡ (some (pointers kept ++ left_over), length kept))
    × Distinct kept
    × ((d : PackageInfo) → has_slot d kept ≡ has_result d results)
    × All (λ p. is_develop p ≡ false) kept
filter_results_example =
    filter_results (λ p. is_develop p ≡ false) results
      ((λ h. h), ((λ h. h), ((λ h. h), ((λ h. h), tt))))
