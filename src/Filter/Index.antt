-- ===== src/Filter/Index.antt =====
-- Where the inner loop of `filter_store_search_results` finds the slot of a candidate.
use linyaps_store.Base.{
  ℕ, suc, ◌+◌, ◌≤◌, ◌<◌, ◌≡◌, refl, ap, ◌∙◌, some, List, [], ◌∷◌, ◌++◌, ok, read, set, length,
  if◌then◌else◌, arith, Bool-cases, inl, inr,
}
use linyaps_store.Types.{PackageInfo}
use linyaps_store.Filter.{same_package_slot, is_older, find_slot}
use linyaps_store.Filter.Keep.{absorb}
use linyaps_store.Filter.Arrays.{Pointers, pointers}

-- The index at which a candidate finds its slot among the kept packages; their number if it does not.
unfoldable pub slot_index : PackageInfo → List PackageInfo → ℕ
slot_index c [] = 0
slot_index c (x ∷ kept) = if same_package_slot x c then 0 else suc (slot_index c kept)

-- The inner loop finds that index. From `j` on the array reads as the kept packages, then `rest`.
pub find_slot_lem :
    (c : PackageInfo) (kept : List PackageInfo) (rest list : Pointers) (j : ℕ)
    → ((i : ℕ) → read list (j + i) ≡ read (pointers kept ++ rest) i)
    → find_slot (length kept) list c j ≡ ok (j + slot_index c kept)
unfolding find_slot slot_index
find_slot_lem c [] rest list j h = ap ok (omega arith)
find_slot_lem c (x ∷ kept) rest list j h =
    let here : read list j ≡ ok (some x) = ap (read list) (omega arith) ∙ h 0 in
    let there : (i : ℕ) → read list (j + 1 + i) ≡ read (pointers kept ++ rest) i =
      λ i. ap (read list) {y = j + suc i} (omega arith) ∙ h (suc i) in
    ground (arith, here, find_slot_lem c kept rest list (j + 1) there)

pub slot_index-le : (c : PackageInfo) (kept : List PackageInfo) → slot_index c kept ≤ length kept
unfolding slot_index
slot_index-le c [] = omega arith
slot_index-le c (x ∷ kept) = ground (arith, slot_index-le c kept)

pub absorb_new :
    (c : PackageInfo) (kept : List PackageInfo)
    → slot_index c kept ≡ length kept
    → absorb c kept ≡ kept ++ c ∷ []
unfolding slot_index absorb
absorb_new c [] e = refl
absorb_new c (x ∷ kept) e = ground (arith, absorb_new c kept)

-- The package whose slot the candidate has, and what `absorb` does to it.
pub absorb_found :
    (c : PackageInfo) (kept : List PackageInfo)
    → slot_index c kept < length kept
    → (x : PackageInfo) × (read (pointers kept) (slot_index c kept) ≡ ok (some x))
      × (pointers (absorb c kept) ≡ (
          if is_older x c then set (pointers kept) (slot_index c kept) (some c) else pointers kept))
      × (length (absorb c kept) ≡ length kept)
unfolding slot_index absorb
absorb_found c [] h = elim h [ ]
absorb_found c (x ∷ kept) h = elim (Bool-cases (same_package_slot x c)) [
  | inl found ↦ (x, ground arith, ground arith, ground arith)
  | inr other ↦
      let (y, at, e, l) = absorb_found c kept (ground arith) in
      (y, ground arith, ground arith, ground arith)
]
