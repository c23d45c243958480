-- ===== src/Slots/Write.antt =====
-- Writing one slot: what becomes of the contents, of the chains, and of soundness.
use linyaps_store.Base.{
  ℕ, zero, suc, ◌+◌, ◌≤◌, ◌<◌, ◌≡◌, refl, none, some, List, [], ◌∷◌, length, set, length-set, Str,
  same, same_iff, arith, Bool-cases, some_inj, inl, inr, if◌then◌else◌, ◌==◌, ==_iff, ◌∙◌, sym,
}
use mathlib.Core.Path.{subst₂}
use linyaps_store.Slots.{Slot, next}
use linyaps_store.Slots.Scan.{
  key_at, key_at-lt, one_if, scan, occurrences, in_use, key→holds, holds→key, occurrences-key_at,
}
use linyaps_store.Slots.Chain.{Clear, IsSound, home}
use linyaps_store.Slots.Probing.{IsLanding}

module _ {ℓ} {S : Type ℓ} ⦃slot : Slot S⦄ where
  pub key_at-set :
      (t : List S) (j i : ℕ) (s : S)
      → j < length t
      → key_at (set t j s) i ≡ (if i == j then slot.key s else key_at t i)
  unfolding key_at
  key_at-set [] j i s h = absurd (omega arith)
  key_at-set (x ∷ t) zero zero s h = refl
  key_at-set (x ∷ t) zero (suc i) s h = ground arith
  key_at-set (x ∷ t) (suc j) zero s h = ground arith
  key_at-set (x ∷ t) (suc j) (suc i) s h = ground (arith, key_at-set t j i s)

  -- Filling a free slot.
  module _ (s : S) (k : Str) (e : slot.key s ≡ some k) where
    pub occurrences-set_free :
        (q : Str) (t : List S) (j : ℕ)
        → j < length t
        → key_at t j ≡ none
        → occurrences q (set t j s) ≡ one_if (same k q) + occurrences q t
    unfolding key_at occurrences
    occurrences-set_free q [] j h f = absurd (omega arith)
    occurrences-set_free q (x ∷ t) zero h f = ground arith
    occurrences-set_free q (x ∷ t) (suc j) h f = ground (arith, occurrences-set_free q t j)

    pub in_use-set_free :
        (t : List S) (j : ℕ) → j < length t → key_at t j ≡ none → in_use (set t j s) ≡ in_use t + 1
    unfolding key_at in_use
    in_use-set_free [] j h f = absurd (omega arith)
    in_use-set_free (x ∷ t) zero h f = ground arith
    in_use-set_free (x ∷ t) (suc j) h f = ground (arith, in_use-set_free t j)

    pub scan-set_free :
        (q : Str) (t : List S) (j : ℕ)
        → j < length t
        → key_at t j ≡ none
        → occurrences k t ≡ 0
        → scan (set t j s) q ≡ (if same k q then some s else scan t q)
    unfolding key_at scan occurrences
    scan-set_free q [] j h f o = absurd (omega arith)
    scan-set_free q (x ∷ t) zero h f o = ground arith
    scan-set_free q (x ∷ t) (suc j) h f o =
        ground (arith, scan-set_free q t j, same_iff k q, holds→key x q, key→holds x k)

    -- Replacing a slot by one with the same key.
    pub occurrences-set_hit :
        (q : Str) (t : List S) (j : ℕ)
        → key_at t j ≡ some k
        → occurrences q (set t j s) ≡ occurrences q t
    unfolding key_at occurrences
    occurrences-set_hit q [] j h = refl
    occurrences-set_hit q (x ∷ t) zero h = ground arith
    occurrences-set_hit q (x ∷ t) (suc j) h = ground (arith, occurrences-set_hit q t j)

    pub in_use-set_hit : (t : List S) (j : ℕ) → key_at t j ≡ some k → in_use (set t j s) ≡ in_use t
    unfolding key_at in_use
    in_use-set_hit [] j h = refl
    in_use-set_hit (x ∷ t) zero h = ground arith
    in_use-set_hit (x ∷ t) (suc j) h = ground (arith, in_use-set_hit t j)

    pub scan-set_hit :
        (q : Str) (t : List S) (j : ℕ)
        → key_at t j ≡ some k
        → occurrences k t ≤ 1
        → scan (set t j s) q ≡ (if same k q then some s else scan t q)
    unfolding key_at scan occurrences
    scan-set_hit q [] j h o = ground arith
    scan-set_hit q (x ∷ t) zero h o = ground (arith, same_iff k q)
    scan-set_hit q (x ∷ t) (suc j) h o = ground (
      arith,
      scan-set_hit q t j,
      same_iff k q,
      holds→key x q,
      key→holds x k,
      occurrences-key_at k t j,
    )

    -- Taking one more slot breaks no chain.
    pub Clear-set :
        (cap : ℕ) (t : List S) (r : ℕ)
        → r < length t
        → (d i j : ℕ) → Clear cap t d i j
        → Clear cap (set t r s) d i j
    Clear-set cap t r h zero i j c = c
    Clear-set cap t r h (suc d) i j ((x, e'), c) = (
      elim (Bool-cases (i == r)) [
        | inl same_index ↦ (k, rw (key_at-set t r i s h, same_index) e)
        | inr other ↦ (x, rw (key_at-set t r i s h, other) e')
      ],
      Clear-set cap t r h d (next cap i) j c,
    )

    chain_free :
        (cap : ℕ) (t : List S) (r i : ℕ) (x : Str)
        → IsSound cap t
        → IsLanding cap t cap (home k cap) r
        → key_at (set t r s) i ≡ some x
        → (d : ℕ) × (d < cap) × Clear cap (set t r s) d (home x cap) i
    chain_free cap t r i x sound land h =
        let lt : r < length t = omega (arith, sound.width, land.within) in
        let at_i = key_at-set t r i s lt in
        elim (Bool-cases (i == r)) [
          | inl eq ↦
              let (d, bound, c) = land.chain in
              let same_key : some k ≡ some x = sym e ∙ (rw (at_i, eq) at h) in
              subst₂ (λ y z. (d : ℕ) × (d < cap) × Clear cap (set t r s) d (home y cap) z)
                (some_inj same_key) (sym ((==_iff i r).0 eq))
                (d, bound, Clear-set cap t r lt d (home k cap) r c)
          | inr ne ↦
              let (d, bound, c) = sound.placed i x (rw (at_i, ne) at h) in
              (d, bound, Clear-set cap t r lt d (home x cap) i c)
        ]

    -- A key that is not in the table may be put on the free slot that its probe lands on.
    pub set_free-IsSound :
        (cap : ℕ) (t : List S) (r : ℕ)
        → IsSound cap t
        → IsLanding cap t cap (home k cap) r
        → occurrences k t ≡ 0
        → IsSound cap (set t r s)
    set_free-IsSound cap t r sound land o = record {
      width = length-set t r s ∙ sound.width;
      small = sound.small;
      once = λ q.
          let lt : r < length t = omega (arith, sound.width, land.within) in
          ground (arith, occurrences-set_free q t r lt land.free, sound.once q, same_iff k q);
      placed = λ i x h. chain_free cap t r i x sound land h;
    }

    key_at-set_hit :
        (t : List S) (r i : ℕ) → key_at t r ≡ some k → key_at (set t r s) i ≡ key_at t i
    key_at-set_hit t r i h =
        let at_i = key_at-set t r i s (key_at-lt t r h) in
        elim (Bool-cases (i == r)) [
          | inl eq ↦ rw (at_i, eq, (==_iff i r).0 eq, h) e
          | inr ne ↦ rw (at_i, ne)
        ]

    -- A slot may be replaced by another one of the same key.
    pub set_hit-IsSound :
        (cap : ℕ) (t : List S) (r : ℕ)
        → IsSound cap t
        → key_at t r ≡ some k
        → IsSound cap (set t r s)
    set_hit-IsSound cap t r sound h = record {
      width = length-set t r s ∙ sound.width;
      small = sound.small;
      once = λ q. omega (arith, occurrences-set_hit q t r h, sound.once q);
      placed = λ i x at_i.
          let (d, bound, c) = sound.placed i x (sym (key_at-set_hit t r i h) ∙ at_i) in
          (d, bound, Clear-set cap t r (key_at-lt t r h) d (home x cap) i c);
    }
