-- ===== src/Filter/Refine.antt =====
-- The compaction in place does what `keep` says.
use linyaps_store.Base.{
  ℕ, suc, ◌+◌, ◌<◌, ◌≡◌, refl, sym, ap, ◌∙◌, Option, none, some, List, [], ◌∷◌, ◌++◌, ok, ◌>>=◌,
  Returns, read, set, length, length-append, ◌==◌, ==_iff, if◌then◌else◌, arith, Bool-cases, inl,
  inr,
}
use mathlib.Core.List.{append_assoc}
use linyaps_store.Types.{PackageInfo}
use linyaps_store.Filter.{
  is_develop, is_older, settle, filter_one, filter_loop, filter_store_search_results,
}
use linyaps_store.Filter.Keep.{absorb, keep}
use linyaps_store.Filter.Arrays.{
  Pointers, pointers, length-pointers, pointers-append, read-append_left, read-append_right,
  set-append_left, set-append_here,
}
use linyaps_store.Filter.Index.{slot_index, find_slot_lem, slot_index-le, absorb_new, absorb_found}

-- The array after `i` candidates: the kept packages, what they have left behind, and the rest.
abbrev layout : List PackageInfo → Pointers → Pointers → Pointers
layout kept junk rest = pointers kept ++ (junk ++ rest)

-- The state after one more candidate.
record Stepped (kept' : List PackageInfo) (i : ℕ) (rest : Pointers) (r : Pointers × ℕ)
    : Type 0 where
  junk : Pointers
  same_state : r ≡ (layout kept' junk rest, length kept')
  advanced : length kept' + length junk ≡ i + 1

behind :
    (junk rest : Pointers) (p : Option PackageInfo) → junk ++ (p ∷ rest) ≡ (junk ++ p ∷ []) ++ rest
behind [] rest p = refl
behind (x ∷ junk) rest p = ap (λ t. x ∷ t) (behind junk rest p)

-- Room for one more kept package is what the next pointer leaves.
next_place :
    (junk rest : Pointers) (c : PackageInfo)
    → (y : Option PackageInfo) × (junk' : Pointers) × (junk ++ (some c ∷ rest)
        ≡ y ∷ (junk' ++ rest))
      × (length junk' ≡ length junk)
next_place [] rest c = (some c, [], refl, refl)
next_place (x ∷ junk) rest c = (
  x,
  junk ++ some c ∷ [],
  ap (λ t. x ∷ t) (behind junk rest (some c)),
  omega (arith, length-append junk (some c ∷ [])),
)

module _ (c : PackageInfo) (kept : List PackageInfo) (junk rest : Pointers) where
  abbrev here : Pointers
  here = layout kept junk (some c ∷ rest)

  skipped : Stepped kept (length kept + length junk) rest (here, length kept)
  skipped = record {
    junk = junk ++ some c ∷ [];
    same_state = ap (λ t. (pointers kept ++ t, length kept)) (behind junk rest (some c));
    advanced = omega (arith, length-append junk (some c ∷ []));
  }

  appended :
      Stepped
        (kept ++ c ∷ [])
        (length kept + length junk)
        rest
        (set here (length kept) (some c), length kept + 1)
  appended =
      let (y, junk', e, l) = next_place junk rest c in
      let moved : set here (length kept) (some c) ≡ layout (kept ++ c ∷ []) junk' rest =
        ap (λ t. set (pointers kept ++ t) (length kept) (some c)) e
        ∙ ap (λ n. set (pointers kept ++ y ∷ (junk' ++ rest)) n (some c))
            (sym (length-pointers kept))
        ∙ set-append_here (pointers kept) (junk' ++ rest) y (some c)
        ∙ sym (append_assoc (pointers kept) (some c ∷ []) (junk' ++ rest))
        ∙ ap (λ t. t ++ (junk' ++ rest)) (sym (pointers-append kept (c ∷ []))) in
      record {
        junk = junk';
        same_state = λ i. (moved i, length_one i);
        advanced = omega (arith, length-append kept (c ∷ []), l);
      }
    where
      length_one : length kept + 1 ≡ length (kept ++ c ∷ [])
      length_one = omega (arith, length-append kept (c ∷ []))

  settled :
      slot_index c kept < length kept
      → settle here (length kept) c (slot_index c kept)
        ≡ ok (layout (absorb c kept) junk (some c ∷ rest), length (absorb c kept))
  unfolding settle
  settled lt =
      let (x, found, e, l) = absorb_found c kept lt in
      let bound : slot_index c kept < length (pointers kept) =
        omega (arith, length-pointers kept) in
      let tail = junk ++ (some c ∷ rest) in
      elim (Bool-cases (is_older x c)) [
        | inl older ↦
            rw
              (
                read-append_left (pointers kept) tail (slot_index c kept) bound,
                found,
                ◌>>=◌,
                older,
                e,
                older,
                l,
              )
              (ap (λ t. ok (t, length kept))
                (set-append_left (pointers kept) tail (slot_index c kept) (some c) bound))
        | inr newer ↦ rw (
          read-append_left (pointers kept) tail (slot_index c kept) bound,
          found,
          ◌>>=◌,
          newer,
          e,
          newer,
          l,
        )
      ]

  filter_one_lem :
      Returns
        (filter_one here (length kept) c)
        (Stepped (if is_develop c then kept else absorb c kept) (length kept + length junk) rest)
  unfolding filter_one
  filter_one_lem =
      let probe =
        find_slot_lem c kept (junk ++ (some c ∷ rest)) here 0 (λ i. ap (read here) (omega arith)) in
      elim (Bool-cases (is_develop c)) [
        | inl dev ↦ ((here, length kept), rw dev, rw dev skipped)
        | inr other ↦ elim (Bool-cases (slot_index c kept == length kept)) [
          | inl new ↦ (
            (set here (length kept) (some c), length kept + 1),
            ground (arith, probe),
            rw (other, absorb_new c kept ((==_iff _ _).0 new)) appended,
          )
          | inr old ↦
              let lt : slot_index c kept < length kept = ground (arith, slot_index-le c kept) in
              let (_, _, _, l) = absorb_found c kept lt in
              (
                (layout (absorb c kept) junk (some c ∷ rest), length (absorb c kept)),
                ground (arith, probe, settled lt),
                rw other (record {
                  junk = junk ++ some c ∷ [];
                  same_state =
                      ap (λ t. (pointers (absorb c kept) ++ t, length (absorb c kept)))
                        (behind junk rest (some c));
                  advanced = omega (arith, length-append junk (some c ∷ []), l);
                }),
              )
        ]
      ]

-- What the whole filter leaves: the kept packages in front of an array of the same length.
pub record Compacted (kept : List PackageInfo) (n : ℕ) (r : Pointers × ℕ) : Type 0 where
  pub left_over : Pointers
  pub same_state : r ≡ (pointers kept ++ left_over, length kept)
  pub same_length : length kept + length left_over ≡ n

read_next :
    (kept : List PackageInfo) (junk rest : Pointers) (p : Option PackageInfo)
    → read (layout kept junk (p ∷ rest)) (length kept + length junk) ≡ ok p
read_next kept junk rest p =
    ap (λ n. read (layout kept junk (p ∷ rest)) (n + length junk)) (sym (length-pointers kept))
    ∙ read-append_right (pointers kept) (junk ++ p ∷ rest) (length junk)
    ∙ ap (read (junk ++ p ∷ rest)) (omega arith)
    ∙ read-append_right junk (p ∷ rest) 0

-- One round of the outer loop, in terms of what `filter_one` does.
loop_none :
    (n i out : ℕ) (list : Pointers)
    → read list i ≡ ok none
    → filter_loop (suc n) list i out ≡ filter_loop n list (i + 1) out
unfolding filter_loop
loop_none n i out list e = rw e

loop_some :
    (n i out : ℕ) (list : Pointers) (c : PackageInfo) (r : Pointers × ℕ)
    → read list i ≡ ok (some c)
    → filter_one list out c ≡ ok r
    → filter_loop (suc n) list i out ≡ filter_loop n r.0 (i + 1) r.1
unfolding filter_loop
loop_some n i out list c r e run = rw (e, ◌>>=◌, run)

filter_loop_lem :
    (rest : Pointers) (kept : List PackageInfo) (junk : Pointers) (i n : ℕ)
    → i ≡ length kept + length junk
    → n ≡ i + length rest
    → Returns
        (filter_loop (length rest) (layout kept junk rest) i (length kept))
        (Compacted (keep kept rest) n)
unfolding keep
filter_loop_lem [] kept junk i n e e' = (
  (layout kept junk [], length kept),
  unfold filter_loop in refl,
  record {
    left_over = junk ++ [];
    same_state = refl;
    same_length = omega (arith, length-append junk []);
  },
)
filter_loop_lem (none ∷ rest) kept junk i n e e' =
    let (r, run, done) =
      filter_loop_lem rest kept (junk ++ none ∷ []) (i + 1) n
        (omega (arith, length-append junk (none ∷ []))) (omega arith) in
    let at : read (layout kept junk (none ∷ rest)) i ≡ ok none =
      ap (read (layout kept junk (none ∷ rest))) e ∙ read_next kept junk rest none in
    (
      r,
      loop_none (length rest) i (length kept) (layout kept junk (none ∷ rest)) at
          ∙ ap (λ t. filter_loop (length rest) (pointers kept ++ t) (i + 1) (length kept))
              (behind junk rest none)
          ∙ run,
      done,
    )
filter_loop_lem (some c ∷ rest) kept junk i n e e' =
    let (s, one, t) = filter_one_lem c kept junk rest in
    let kept' = if is_develop c then kept else absorb c kept in
    let (r, run, done) =
      filter_loop_lem rest kept' t.junk (i + 1) n (omega (arith, t.advanced)) (omega arith) in
    let at : read (layout kept junk (some c ∷ rest)) i ≡ ok (some c) =
      ap (read (layout kept junk (some c ∷ rest))) e ∙ read_next kept junk rest (some c) in
    (
      r,
      loop_some (length rest) i (length kept) (layout kept junk (some c ∷ rest)) c s at one
          ∙ ap (λ q. filter_loop (length rest) q.0 (i + 1) q.1) t.same_state
          ∙ run,
      done,
    )

-- `filter_store_search_results` on an array of `count` pointers ends, reads and writes in bounds,
-- and leaves in front of the array, one after the other, the packages that `keep` keeps; the new
-- count is their number.
pub filter-keep :
    (list : Pointers)
    → Returns (filter_store_search_results (some list) (length list)) λ r.
      (left_over : Pointers) × (r
        ≡ (some (pointers (keep [] list) ++ left_over), length (keep [] list)))
      × (length (keep [] list) + length left_over ≡ length list)
unfolding filter_store_search_results
filter-keep list =
    let (r, run, done) = filter_loop_lem list [] [] 0 (length list) (omega arith) (omega arith) in
    (
      (some r.0, r.1),
      rw run,
      (done.left_over, ap (λ q. (some q.0, q.1)) done.same_state, done.same_length),
    )
