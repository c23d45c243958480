-- ===== src/Version/Reads.antt =====
-- The numbers that a version string holds, in order, and the loop of the comparison against them.
use Prim.Native.Nat.{compare, Ordering, min}
use linyaps_store.Base.{
  ℕ, zero, suc, ◌≤◌, ◌<◌, ◌≡◌, refl, Option, none, some, List, [], ◌∷◌, true, false, Str, length,
  arith, Bool-cases, inl, inr, ◌+◌, ◌-◌, ◌*◌, strcmp, ◌⊎◌,
}
use linyaps_store.Version.{
  is_digit, strtoll, read_version_number, compare_numbers, compare_versions, llong_max,
}

-- The value of a number after one more digit.
abbrev push_digit : ℕ → ℕ → ℕ
push_digit v c = min llong_max (v * 10 + (c - b'0'))

-- One pass over the string; the first argument is the value of the number that is being read.
numbers_from : Option ℕ → Str → List ℕ
numbers_from none [] = []
numbers_from (some v) [] = v ∷ []
numbers_from none (c ∷ s) = elim (is_digit c) [
  | true ↦ numbers_from (some (push_digit 0 c)) s
  | false ↦ numbers_from none s
]
numbers_from (some v) (c ∷ s) = elim (is_digit c) [
  | true ↦ numbers_from (some (push_digit v c)) s
  | false ↦ v ∷ numbers_from none s
]

-- The maximal runs of digits of a string, as numbers that stop at `LLONG_MAX`.
unfoldable pub numbers : Str → List ℕ
unfolding numbers_from
numbers s = numbers_from none s

-- The first difference of two lists; none if one is the beginning of the other.
unfoldable pub compare_prefix : List ℕ → List ℕ → Option Ordering
compare_prefix [] ys = none
compare_prefix (x ∷ xs) [] = none
compare_prefix (x ∷ xs) (y ∷ ys) = elim (compare x y) [
  | Ordering.lt ↦ some Ordering.lt
  | Ordering.eq ↦ compare_prefix xs ys
  | Ordering.gt ↦ some Ordering.gt
]

strtoll-numbers :
    (v : ℕ) (s : Str)
    → numbers_from (some v) s ≡ (strtoll v s).0 ∷ numbers_from none (strtoll v s).1
unfolding numbers_from strtoll
strtoll-numbers v [] = refl
strtoll-numbers v (c ∷ s) = ground (arith, strtoll-numbers (push_digit v c) s)

length-strtoll : (v : ℕ) (s : Str) → length (strtoll v s).1 ≤ length s
unfolding strtoll
length-strtoll v [] = omega arith
length-strtoll v (c ∷ s) = ground (arith, length-strtoll (push_digit v c) s)

-- What one reading does: at the end of the string there is no number left; else it takes the first
-- number and shortens the string.
read_lem :
    (s : Str)
    → ((read_version_number s ≡ none) × (numbers s ≡ []))
      ⊎ ((v : ℕ) × (r : Str) × (read_version_number s ≡ some (v, r))
          × (numbers s ≡ v ∷ numbers r)
          × (length r < length s))
unfolding read_version_number numbers strtoll
read_lem [] = inl (refl, refl)
read_lem (c ∷ s) = elim (Bool-cases (is_digit c)) [
  | inl digit ↦ inr (
    (strtoll (push_digit 0 c) s).0,
    (strtoll (push_digit 0 c) s).1,
    ground arith,
    ground (arith, strtoll-numbers (push_digit 0 c) s),
    omega (arith, length-strtoll (push_digit 0 c) s),
  )
  | inr other ↦ elim (read_lem s) [
    | inl (e, e') ↦ inl (ground arith, ground arith)
    | inr (v, r, e, e', lt) ↦ inr (v, r, ground arith, ground arith, omega arith)
  ]
]

-- With more rounds than the first string has bytes, the loop compares the numbers of both.
compare_numbers_lem :
    (f : ℕ) (a b : Str)
    → length a < f
    → compare_numbers f a b ≡ compare_prefix (numbers a) (numbers b)
unfolding compare_numbers compare_prefix
compare_numbers_lem zero a b h = elim h [ ]
compare_numbers_lem (suc f) a b h = elim (read_lem a) [
  | inl (e, e') ↦ ground arith
  | inr (v, r, e, e', lt) ↦ elim (read_lem b) [
    | inl (d, d') ↦ ground arith
    | inr (w, q, d, d', _) ↦ ground (arith, compare_numbers_lem f r q)
  ]
]

-- `compare_versions` of two strings: the first difference between the numbers that they hold
-- decides; if there is none before one of them has no number left, the bytes do.
pub compare_versions-numbers :
    (a b : Str)
    → compare_versions (some a) (some b)
      ≡ elim (compare_prefix (numbers a) (numbers b)) [ none ↦ strcmp a b | some r ↦ r ]
unfolding compare_versions
compare_versions-numbers a b =
    ground (arith, compare_numbers_lem (suc (length a)) a b (omega arith))
