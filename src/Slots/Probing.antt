-- ===== src/Slots/Probing.antt =====
-- The two probing loops: where they stop, and that they stop.
use linyaps_store.Base.{
  ℕ, zero, suc, ◌<◌, ◌≡◌, ◌≢◌, refl, none, some, List, length, Str, same, same_iff, same_refl,
  arith, ok, ◌>>=◌, Returns, inl, inr, Option-cases, Bool-cases, ◌∙◌, ap,
}
use linyaps_store.Slots.{Slot, next, find_empty, find_key, Probe, hit, vacant}
use linyaps_store.Slots.Scan.{key_at, key_at-lt, read-key_at}
use linyaps_store.Slots.Chain.{IsIndex, distance, next-lt, distance-next, Clear}

module _ {ℓ} {S : Type ℓ} ⦃slot : Slot S⦄ where
  -- A free slot in range that a chain of fewer than `f` steps from `i` leads to.
  pub record IsLanding (cap : ℕ) (t : List S) (f i r : ℕ) : Type 0 where
    pub within : r < cap
    pub free : key_at t r ≡ none
    pub chain : (d : ℕ) × (d < f) × Clear cap t d i r

  IsLanding-step :
      (cap : ℕ) (t : List S) (f i r : ℕ) (k : Str)
      → key_at t i ≡ some k
      → IsLanding cap t f (next cap i) r
      → IsLanding cap t (suc f) i r
  IsLanding-step cap t f i r k e l = record {
    within = l.within;
    free = l.free;
    chain = (suc l.chain.0, omega (arith, l.chain.1), ((k, e), l.chain.2));
  }

  module _ (cap : ℕ) (t : List S) (width : length t ≡ cap) (j : ℕ) (lt : j < cap)
      (free : key_at t j ≡ none) where
    -- `find_empty` stops at a free slot when it has more rounds than the way to one.
    pub find_empty_lem :
        (f i : ℕ)
        → IsIndex cap i
        → distance cap i j < f
        → Returns (find_empty f cap t i) (IsLanding cap t f i)
    unfolding find_empty
    find_empty_lem zero i h m = absurd (omega arith)
    find_empty_lem (suc f) i h m =
        let (s, r, e) = read-key_at t i (omega arith) in
        elim (Option-cases (key_at t i)) [
          | inl e' ↦ (
            i,
            rw (r, ◌>>=◌, e, e'),
            record { within = h.0; free = e'; chain = (0, omega arith, refl) },
          )
          | inr (k, e') ↦
              let ne : i ≢ j = λ p. cc (free, e', ap (key_at t) p) in
              let (x, run, l) =
                find_empty_lem f (next cap i) (next-lt cap i h, h.1)
                  (omega (arith, distance-next cap i j h lt ne)) in
              (x, rw (r, ◌>>=◌, e, e') run, IsLanding-step cap t f i x k e' l)
        ]

  -- What a search for `k` from `i` has found: a slot of that key, or a landing.
  abbrev pub Lands : ℕ → List S → Str → ℕ → ℕ → Probe → Type 0
  Lands cap t k f i (hit r) = (r < cap) × (key_at t r ≡ some k)
  Lands cap t k f i (vacant r) = IsLanding cap t f i r

  Lands-step :
      (cap : ℕ) (t : List S) (k : Str) (f i : ℕ) (x : Str) (p : Probe)
      → key_at t i ≡ some x
      → Lands cap t k f (next cap i) p
      → Lands cap t k (suc f) i p
  Lands-step cap t k f i x (hit r) e l = l
  Lands-step cap t k f i x (vacant r) e l = IsLanding-step cap t f i r x e l

  module _ (cap : ℕ) (t : List S) (width : length t ≡ cap) (j : ℕ) (lt : j < cap)
      (free : key_at t j ≡ none) (k : Str) where
    -- `find_key` stops, with more rounds than the way to a free slot.
    pub find_key_lem :
        (f i : ℕ)
        → IsIndex cap i
        → distance cap i j < f
        → Returns (find_key f cap t k i) (Lands cap t k f i)
    unfolding find_key
    find_key_lem zero i h m = absurd (omega arith)
    find_key_lem (suc f) i h m =
        let (s, r, e) = read-key_at t i (omega arith) in
        elim (Option-cases (key_at t i)) [
          | inl e' ↦ (
            vacant i,
            rw (r, ◌>>=◌, e, e'),
            record { within = h.0; free = e'; chain = (0, omega arith, refl) },
          )
          | inr (x, e') ↦ elim (Bool-cases (same x k)) [
            | inl eq ↦ (hit i, rw (r, ◌>>=◌, e, e', eq), (h.0, e' ∙ ap some ((same_iff x k).0 eq)))
            | inr ne ↦
                let apart : i ≢ j = λ p. cc (free, e', ap (key_at t) p) in
                let (p, run, l) =
                  find_key_lem f (next cap i) (next-lt cap i h, h.1)
                    (omega (arith, distance-next cap i j h lt apart)) in
                (p, rw (r, ◌>>=◌, e, e', ne) run, Lands-step cap t k f i x p e' l)
          ]
        ]

  -- A search never passes the key that it looks for: with the key at the end of a chain from `i`
  -- it does not land on a free slot.
  pub find_key-ne-vacant :
      (cap : ℕ) (t : List S) (k : Str) (f d i j r : ℕ)
      → Clear cap t d i j
      → key_at t j ≡ some k
      → find_key f cap t k i ≢ ok (vacant r)
  unfolding find_key
  find_key-ne-vacant cap t k zero d i j r c e run = cc
  find_key-ne-vacant cap t k (suc f) zero i j r c e run =
      let e' : key_at t i ≡ some k = ap (key_at t) c ∙ e in
      let (s, rd, es) = read-key_at t i (key_at-lt t i e') in
      cc (rw (rd, ◌>>=◌, es, e', same_refl k) at run)
  find_key-ne-vacant cap t k (suc f) (suc d) i j r ((x, e'), c) e run =
      let (s, rd, es) = read-key_at t i (key_at-lt t i e') in
      let run' = rw (rd, ◌>>=◌, es, e') at run in
      elim (Bool-cases (same x k)) [
        | inl eq ↦ cc (rw eq at run')
        | inr ne ↦ find_key-ne-vacant cap t k f d (next cap i) j r c e (rw ne at run')
      ]
