-- ===== src/Filter/Results.antt =====
-- What `keep` keeps: one package of each slot, none of the develop module, and nothing else.
use linyaps_store.Base.{
  ◌≡◌, refl, sym, ◌∙◌, none, some, List, [], ◌∷◌, ◌++◌, Bool, true, false, not, ◌&&◌, ◌||◌,
  if◌then◌else◌, arith, Bool-cases, inl, inr, same_iff, Returns, length,
}
use linyaps_store.Types.{PackageInfo}
use linyaps_store.Filter.{
  same_package_slot, is_develop, is_older, or_empty, filter_store_search_results,
}
use linyaps_store.Filter.Keep.{absorb, keep}
use linyaps_store.Filter.Arrays.{Pointers, pointers}
use linyaps_store.Filter.Refine.{filter-keep}

slot_refl : (a : PackageInfo) → same_package_slot a a ≡ true
unfolding same_package_slot
slot_refl a = ground (
  arith,
  same_iff (or_empty a.repo) (or_empty a.repo),
  same_iff (or_empty a.id) (or_empty a.id),
  same_iff (or_empty a.module_name) (or_empty a.module_name),
)

-- Packages of one slot have the same slot as any third.
slot_congr :
    (a b d : PackageInfo)
    → same_package_slot a b ≡ true
    → same_package_slot a d ≡ same_package_slot b d
unfolding same_package_slot
slot_congr a b d h = let (r, i, m) = parts a b h in rw (r, i, m)
  where
    parts :
        (a b : PackageInfo)
        → same_package_slot a b ≡ true
        → (or_empty a.repo ≡ or_empty b.repo)
          × (or_empty a.id ≡ or_empty b.id)
          × (or_empty a.module_name ≡ or_empty b.module_name)
    parts a b h = (
      (same_iff (or_empty a.repo) (or_empty b.repo)).0 (ground arith),
      (same_iff (or_empty a.id) (or_empty b.id)).0 (ground arith),
      (same_iff (or_empty a.module_name) (or_empty b.module_name)).0 (ground arith),
    )

-- Whether a list has a package of the slot of `d`.
unfoldable pub has_slot : PackageInfo → List PackageInfo → Bool
has_slot d [] = false
has_slot d (x ∷ xs) = same_package_slot x d || has_slot d xs

-- Whether the results have a package of that slot that is not of the develop module.
unfoldable pub has_result : PackageInfo → Pointers → Bool
has_result d [] = false
has_result d (none ∷ list) = has_result d list
has_result d (some c ∷ list) = (not (is_develop c) && same_package_slot c d) || has_result d list

-- No two packages of the list have one slot.
abbrev pub Distinct : List PackageInfo → Type 0
Distinct [] = Unit
Distinct (x ∷ xs) = (has_slot x xs ≡ false) × Distinct xs

abbrev pub All {ℓ} : (PackageInfo → Type ℓ) → List PackageInfo → Type ℓ
All P [] = Unit
All P (x ∷ xs) = P x × All P xs

has_slot-absorb :
    (c d : PackageInfo) (kept : List PackageInfo)
    → has_slot d (absorb c kept) ≡ (has_slot d kept || same_package_slot c d)
unfolding has_slot absorb
has_slot-absorb c d [] = ground arith
has_slot-absorb c d (x ∷ kept) = ground (arith, slot_congr x c d, has_slot-absorb c d kept)

pub slot_comm : (a b : PackageInfo) → same_package_slot a b ≡ same_package_slot b a
slot_comm a b = ground (arith, slot_congr a b a, slot_congr b a b, slot_refl a, slot_refl b)

has_slot_congr :
    (a b : PackageInfo) (kept : List PackageInfo)
    → same_package_slot a b ≡ true
    → has_slot a kept ≡ has_slot b kept
unfolding has_slot
has_slot_congr a b [] h = refl
has_slot_congr a b (x ∷ kept) h =
    ground (arith, has_slot_congr a b kept, slot_congr a b x, slot_comm a x, slot_comm b x)

absorb-Distinct :
    (c : PackageInfo) (kept : List PackageInfo) → Distinct kept → Distinct (absorb c kept)
unfolding absorb has_slot
absorb-Distinct c [] h = (refl, tt)
absorb-Distinct c (x ∷ kept) h = elim (Bool-cases (same_package_slot x c)) [
  | inl found ↦ elim (Bool-cases (is_older x c)) [
    | inl older ↦ rw (found, older) (sym (has_slot_congr x c kept found) ∙ h.0, h.1)
    | inr newer ↦ rw (found, newer) h
  ]
  | inr other ↦
      rw other
        (ground (arith, has_slot-absorb c x kept, slot_comm x c, h.0), absorb-Distinct c kept h.1)
]

absorb-All {ℓ} :
    (P : PackageInfo → Type ℓ) (c : PackageInfo) (kept : List PackageInfo)
    → P c
    → All P kept
    → All P (absorb c kept)
unfolding absorb
absorb-All P c [] pc h = (pc, tt)
absorb-All P c (x ∷ kept) pc h = elim (Bool-cases (same_package_slot x c)) [
  | inl found ↦ elim (Bool-cases (is_older x c)) [
    | inl older ↦ rw (found, older) (pc, h.1)
    | inr newer ↦ rw (found, newer) h
  ]
  | inr other ↦ rw other (h.0, absorb-All P c kept pc h.1)
]

pub keep-Distinct_from :
    (list : Pointers) (kept : List PackageInfo) → Distinct kept → Distinct (keep kept list)
unfolding keep
keep-Distinct_from [] kept h = h
keep-Distinct_from (none ∷ list) kept h = keep-Distinct_from list kept h
keep-Distinct_from (some c ∷ list) kept h = elim (Bool-cases (is_develop c)) [
  | inl dev ↦ rw dev (keep-Distinct_from list kept h)
  | inr other ↦ rw other (keep-Distinct_from list (absorb c kept) (absorb-Distinct c kept h))
]

has_slot-keep :
    (d : PackageInfo) (list : Pointers) (kept : List PackageInfo)
    → has_slot d (keep kept list) ≡ (has_slot d kept || has_result d list)
unfolding keep has_result
has_slot-keep d [] kept = ground arith
has_slot-keep d (none ∷ list) kept = has_slot-keep d list kept
has_slot-keep d (some c ∷ list) kept = ground (
  arith,
  has_slot-keep d list (if is_develop c then kept else absorb c kept),
  has_slot-absorb c d kept,
)

-- Every candidate among the results that is not of the develop module satisfies `P`.
abbrev pub AllResults {ℓ} : (PackageInfo → Type ℓ) → Pointers → Type ℓ
AllResults P [] = Unit
AllResults P (none ∷ list) = AllResults P list
AllResults P (some c ∷ list) = (is_develop c ≡ false → P c) × AllResults P list

pub keep-All_from {ℓ} :
    (P : PackageInfo → Type ℓ) (list : Pointers) (kept : List PackageInfo)
    → AllResults P list
    → All P kept
    → All P (keep kept list)
unfolding keep
keep-All_from P [] kept h a = a
keep-All_from P (none ∷ list) kept h a = keep-All_from P list kept h a
keep-All_from P (some c ∷ list) kept h a = elim (Bool-cases (is_develop c)) [
  | inl dev ↦ rw dev (keep-All_from P list kept h.1 a)
  | inr other ↦
      rw other (keep-All_from P list (absorb c kept) h.1 (absorb-All P c kept (h.0 other) a))
]

-- `filter_store_search_results` leaves a front of the array, as long as the new count, in which no
-- two packages have one slot; which has a package of a slot exactly if the results had one of it
-- that is not of the develop module; and whose packages have every property that all results not of
-- the develop module have.
pub filter_results {ℓ} :
    (P : PackageInfo → Type ℓ) (list : Pointers)
    → AllResults P list
    → Returns (filter_store_search_results (some list) (length list)) λ r.
      (kept : List PackageInfo) × (left_over : Pointers) × (r
        ≡ (some (pointers kept ++ left_over), length kept))
      × Distinct kept
      × ((d : PackageInfo) → has_slot d kept ≡ has_result d list)
      × All P kept
unfolding has_slot
filter_results P list h =
    let (r, run, (left_over, e, _)) = filter-keep list in
    (
      r,
      run,
      (
        keep [] list,
        left_over,
        e,
        keep-Distinct_from list [] tt,
        λ d. has_slot-keep d list [],
        keep-All_from P list [] h tt,
      ),
    )
