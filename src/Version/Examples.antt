-- ===== src/Version/Examples.antt =====
-- Versions compared at concrete strings, and the theorems at these inputs.
use Prim.Native.Nat.{Ordering}
use linyaps_store.Base.{◌≡◌, refl, none, some, codes, strcmp}
use linyaps_store.Version.{
  is_digit, strtoll, read_version_number, compare_numbers, compare_versions,
}
use linyaps_store.Version.Reads.{numbers, compare_prefix, compare_versions-numbers}

-- What the tests compute with.
program : Unit {0}
unfolding is_digit strtoll read_version_number compare_numbers compare_versions strcmp
program = tt

tens_above_units : compare_versions (some (codes "1.10.0")) (some (codes "1.9.9")) ≡ Ordering.gt
unfolding program
tens_above_units = refl

more_numbers_above : compare_versions (some (codes "1.0")) (some (codes "1.0.1")) ≡ Ordering.lt
unfolding program
more_numbers_above = refl

saturates :
    compare_versions (some (codes "99999999999999999999")) (some (codes "9223372036854775807"))
    ≡ Ordering.gt
unfolding program
saturates = refl

compare_versions-numbers_example :
    compare_versions (some (codes "v2")) (some (codes "v10"))
    ≡ elim (compare_prefix (numbers (codes "v2")) (numbers (codes "v10"))) [
      | none ↦ strcmp (codes "v2") (codes "v10")
      | some r ↦ r
    ]
compare_versions-numbers_example = compare_versions-numbers (codes "v2") (codes "v10")
