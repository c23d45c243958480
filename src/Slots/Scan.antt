-- ===== src/Slots/Scan.antt =====
-- What an array of slots holds, read from front to back without any hashing: the first slot of a
-- key, how often a key occurs, and how many slots are in use.
use linyaps_store.Base.{
  ℕ, zero, suc, ◌+◌, ◌≤◌, ◌<◌, ◌≡◌, refl, Option, none, some, List, [], ◌∷◌, ok, read, length, Bool,
  true, false, if◌then◌else◌, Str, same, same_iff, arith, Bool-cases, Option-cases, inl, inr,
}
use linyaps_store.Slots.{Slot}

abbrev pub one_if : Bool → ℕ
one_if true = 1
one_if false = 0

module _ {ℓ} {S : Type ℓ} ⦃slot : Slot S⦄ where
  abbrev pub holds : S → Str → Bool
  holds s q = elim (slot.key s) [ none ↦ false | some k ↦ same k q ]

  abbrev pub used : S → Bool
  used s = elim (slot.key s) [ none ↦ false | some _ ↦ true ]

  pub holds→key : (s : S) (q : Str) → holds s q ≡ true → slot.key s ≡ some q
  holds→key s q h = elim (Option-cases (slot.key s)) [
    | inl e ↦ ground arith
    | inr (k, e) ↦ ground (arith, same_iff k q)
  ]

  pub key→holds : (s : S) (q : Str) → slot.key s ≡ some q → holds s q ≡ true
  key→holds s q h = ground (arith, same_iff q q)

  -- The first slot whose key is `q`.
  unfoldable pub scan : List S → Str → Option S
  scan [] q = none
  scan (s ∷ t) q = if holds s q then some s else scan t q

  unfoldable pub occurrences : Str → List S → ℕ
  occurrences q [] = 0
  occurrences q (s ∷ t) = one_if (holds s q) + occurrences q t

  unfoldable pub in_use : List S → ℕ
  in_use [] = 0
  in_use (s ∷ t) = one_if (used s) + in_use t

  -- The key at an index; none for a free slot, and past the end.
  unfoldable pub key_at : List S → ℕ → Option Str
  key_at [] i = none
  key_at (s ∷ t) zero = slot.key s
  key_at (s ∷ t) (suc i) = key_at t i

  pub read-key_at :
      (t : List S) (i : ℕ) → i < length t → (s : S) × (read t i ≡ ok s) × (slot.key s ≡ key_at t i)
  unfolding key_at
  read-key_at [] i h = elim h [ ]
  read-key_at (s ∷ t) zero h = (s, refl, refl)
  read-key_at (s ∷ t) (suc i) h = read-key_at t i (omega arith)

  pub key_at-lt : (t : List S) (i : ℕ) {k : Str} → key_at t i ≡ some k → i < length t
  unfolding key_at
  key_at-lt [] i h = ground arith
  key_at-lt (s ∷ t) zero h = omega arith
  key_at-lt (s ∷ t) (suc i) h = omega (arith, key_at-lt t i h)

  pub in_use-le : (t : List S) → in_use t ≤ length t
  unfolding in_use
  in_use-le [] = omega arith
  in_use-le (s ∷ t) = ground (arith, in_use-le t)

  -- A table that is not full has a free slot.
  pub free_slot :
      (t : List S) → in_use t < length t → (j : ℕ) × (j < length t) × (key_at t j ≡ none)
  unfolding in_use key_at
  free_slot [] h = absurd (omega arith)
  free_slot (s ∷ t) h = elim (Option-cases (slot.key s)) [
    | inl e ↦ (0, omega arith, e)
    | inr (k, e) ↦ let (j, lt, free) = free_slot t (ground arith) in (suc j, omega arith, free)
  ]

  pub index_of : (q : Str) (t : List S) → 0 < occurrences q t → (i : ℕ) × (key_at t i ≡ some q)
  unfolding occurrences key_at
  index_of q [] h = absurd (omega arith)
  index_of q (s ∷ t) h = elim (Bool-cases (holds s q)) [
    | inl e ↦ (0, holds→key s q e)
    | inr e ↦ let (i, found) = index_of q t (ground arith) in (suc i, found)
  ]

  pub occurrences-key_at :
      (q : Str) (t : List S) (i : ℕ) → key_at t i ≡ some q → 0 < occurrences q t
  unfolding occurrences key_at
  occurrences-key_at q [] i h = ground arith
  occurrences-key_at q (s ∷ t) zero h = ground (arith, key→holds s q)
  occurrences-key_at q (s ∷ t) (suc i) h = ground (arith, occurrences-key_at q t i h)

  occurrences-read :
      (q : Str) (t : List S) (i : ℕ) (s : S)
      → read t i ≡ ok s
      → slot.key s ≡ some q
      → 0 < occurrences q t
  unfolding occurrences
  occurrences-read q [] i s r e = ground arith
  occurrences-read q (x ∷ t) zero s r e = ground (arith, key→holds s q)
  occurrences-read q (x ∷ t) (suc i) s r e = ground (arith, occurrences-read q t i s r e)

  pub scan-none : (q : Str) (t : List S) → occurrences q t ≡ 0 → scan t q ≡ none
  unfolding scan occurrences
  scan-none q [] h = refl
  scan-none q (s ∷ t) h = ground (arith, scan-none q t)

  pub scan-read :
      (q : Str) (t : List S) (i : ℕ) (s : S)
      → occurrences q t ≤ 1
      → read t i ≡ ok s
      → slot.key s ≡ some q
      → scan t q ≡ some s
  unfolding scan occurrences
  scan-read q [] i s once r e = ground arith
  scan-read q (x ∷ t) zero s once r e = ground (arith, key→holds s q)
  scan-read q (x ∷ t) (suc i) s once r e =
      ground (arith, scan-read q t i s, occurrences-read q t i s r e)
