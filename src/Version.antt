-- ===== src/Version.antt =====
-- lib/linyaps_dbus_msg.c, the comparison of versions. A `const char **p` that walks a string is the
-- rest of the string.
pub mod Reads
pub mod Order
mod Examples
use Prim.Native.Nat.{compare, Ordering, min}
use linyaps_store.Base.{
  ℕ, zero, suc, ◌+◌, ◌-◌, ◌*◌, ◌^◌, Option, none, some, List, [], ◌∷◌, Bool, true, false, ◌&&◌, leb,
  ltb, if◌then◌else◌, Str, length, strcmp,
}

unfoldable pub is_digit : ℕ → Bool
is_digit c = leb b'0' c && leb c b'9'

-- `LLONG_MAX`
abbrev pub llong_max : ℕ
llong_max = 2 ^ 63 - 1

-- The digits that `strtoll(p, &end, 10)` reads on from a value: it stops at `LLONG_MAX`, and `end`
-- is behind the last digit all the same.
unfoldable pub strtoll : ℕ → Str → ℕ × Str
strtoll v [] = (v, [])
strtoll v (c ∷ s) =
    if is_digit c then strtoll (min llong_max (v * 10 + (c - b'0'))) s else (v, c ∷ s)

-- `read_version_number`: the next number, and what follows it; none at the end of the string.
unfoldable pub read_version_number : Str → Option (ℕ × Str)
unfolding is_digit strtoll
read_version_number [] = none
read_version_number (c ∷ s) = if is_digit c then some (strtoll 0 (c ∷ s)) else read_version_number s

-- The loop of `compare_versions`: the sign of its result, or none where it leaves the loop with no
-- answer. The last case is out of rounds.
unfoldable pub compare_numbers : ℕ → Str → Str → Option Ordering
compare_numbers zero a b = none
compare_numbers (suc f) a b = elim (read_version_number a) [
  | none ↦ none
  | some (va, a') ↦ elim (read_version_number b) [
    | none ↦ none
    | some (vb, b') ↦ elim (compare va vb) [
      | Ordering.lt ↦ some Ordering.lt
      | Ordering.eq ↦ compare_numbers f a' b'
      | Ordering.gt ↦ some Ordering.gt
    ]
  ]
]

-- `compare_versions`. Each round shortens both strings, so the length of the first is rounds enough.
unfoldable pub compare_versions : Option Str → Option Str → Ordering
compare_versions none none = Ordering.eq
compare_versions none (some b) = Ordering.lt
compare_versions (some a) none = Ordering.gt
compare_versions (some a) (some b) = elim (compare_numbers (suc (length a)) a b) [
  | none ↦ strcmp a b
  | some r ↦ r
]
