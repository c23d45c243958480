-- ===== src/Filter/Again.antt =====
-- Filtering once more changes nothing.
use linyaps_store.Base.{
  ◌≡◌, refl, sym, ap, ◌∙◌, none, some, List, [], ◌∷◌, ◌++◌, false, if◌then◌else◌, arith, length, ok,
}
use mathlib.Core.List.{append_assoc, append-nil}
use linyaps_store.Types.{PackageInfo}
use linyaps_store.Filter.{same_package_slot, is_develop, filter_store_search_results}
use linyaps_store.Filter.Keep.{absorb, keep}
use linyaps_store.Filter.Arrays.{Pointers, pointers, length-pointers}
use linyaps_store.Filter.Refine.{filter-keep}
use linyaps_store.Filter.Results.{
  has_slot, Distinct, All, AllResults, keep-Distinct_from, keep-All_from, slot_comm,
}

absorb_absent :
    (c : PackageInfo) (kept : List PackageInfo)
    → has_slot c kept ≡ false
    → absorb c kept ≡ kept ++ c ∷ []
unfolding absorb has_slot
absorb_absent c [] h = refl
absorb_absent c (x ∷ kept) h = ground (arith, absorb_absent c kept)

Distinct-front :
    (kept xs : List PackageInfo) (c : PackageInfo)
    → Distinct (kept ++ c ∷ xs)
    → has_slot c kept ≡ false
unfolding has_slot
Distinct-front [] xs c h = refl
Distinct-front (x ∷ kept) xs c h =
    ground (arith, Distinct-front kept xs c h.1, apart x kept xs c h.0, slot_comm x c)
  where
    apart :
        (x : PackageInfo) (kept xs : List PackageInfo) (c : PackageInfo)
        → has_slot x (kept ++ c ∷ xs) ≡ false
        → same_package_slot c x ≡ false
    apart x [] xs c h = ground arith
    apart x (y ∷ kept) xs c h = apart x kept xs c (ground arith)

keep_stable :
    (xs kept : List PackageInfo)
    → Distinct (kept ++ xs)
    → All (λ p. is_develop p ≡ false) xs
    → keep kept (pointers xs) ≡ kept ++ xs
unfolding keep
keep_stable [] kept h a = sym (append-nil kept)
keep_stable (x ∷ xs) kept h a =
    ap (λ b. keep (if b then kept else absorb x kept) (pointers xs)) a.0
    ∙ ap (λ k. keep k (pointers xs)) (absorb_absent x kept (Distinct-front kept xs x h))
    ∙ keep_stable xs (kept ++ x ∷ []) (rw (append_assoc kept (x ∷ []) xs) h) a.1
    ∙ append_assoc kept (x ∷ []) xs

no_develop : (list : Pointers) → AllResults (λ p. is_develop p ≡ false) list
no_develop [] = tt
no_develop (none ∷ list) = no_develop list
no_develop (some c ∷ list) = ((λ h. h), no_develop list)

empty_of_length : (xs : Pointers) → length xs ≡ 0 → xs ≡ []
empty_of_length [] h = refl
empty_of_length (x ∷ xs) h = absurd (omega arith)

refiltered :
    (kept : List PackageInfo)
    → keep [] (pointers kept) ≡ kept
    → filter_store_search_results (some (pointers kept)) (length kept)
      ≡ ok (some (pointers kept), length kept)
refiltered kept stable =
    let (r, run, (left_over, e, l)) = filter-keep (pointers kept) in
    let nothing : left_over ≡ [] =
      empty_of_length left_over (omega (arith, l, ap length stable, length-pointers kept)) in
    ap (filter_store_search_results (some (pointers kept))) (sym (length-pointers kept))
    ∙ run
    ∙ ap ok e
    ∙ ap (λ k. ok (some (pointers k ++ left_over), length k)) stable
    ∙ ap (λ t. ok (some (pointers kept ++ t), length kept)) nothing
    ∙ ap (λ t. ok (some t, length kept)) (append-nil (pointers kept))

-- Filtering the packages that a filter has kept once more keeps them all, in their order.
pub filter_idem :
    (list : Pointers)
    → let kept = keep [] list in
      filter_store_search_results (some (pointers kept)) (length kept)
      ≡ ok (some (pointers kept), length kept)
filter_idem list = refiltered (keep [] list) (
    keep_stable (keep [] list) [] (keep-Distinct_from list [] tt)
      (keep-All_from (λ p. is_develop p ≡ false) list [] (no_develop list) tt))
