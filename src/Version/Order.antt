-- ===== src/Version/Order.antt =====
-- What kind of order `compare_versions` is.
use Prim.Native.Nat.{compare, Ordering}
use linyaps_store.Base.{
  ℕ, ◌<◌, ◌≡◌, refl, Option, none, some, List, [], ◌∷◌, Str, arith, ◌∙◌, ap, sym, strcmp, codes,
}
use linyaps_store.Version.{read_version_number, compare_numbers, compare_versions}
use linyaps_store.Version.Reads.{numbers, compare_prefix, compare_versions-numbers}

unfoldable pub flip : Ordering → Ordering
flip Ordering.lt = Ordering.gt
flip Ordering.eq = Ordering.eq
flip Ordering.gt = Ordering.lt

compare-flip : (x y : ℕ) → compare y x ≡ flip (compare x y)
unfolding flip
compare-flip x y = ground arith

strcmp-flip : (a b : Str) → strcmp b a ≡ flip (strcmp a b)
unfolding strcmp flip
strcmp-flip [] [] = refl
strcmp-flip [] (y ∷ b) = refl
strcmp-flip (x ∷ a) [] = refl
strcmp-flip (x ∷ a) (y ∷ b) = ground (arith, strcmp-flip a b)

strcmp-eq : (a b : Str) → strcmp a b ≡ Ordering.eq → a ≡ b
unfolding strcmp
strcmp-eq [] [] h = refl
strcmp-eq [] (y ∷ b) h = ground arith
strcmp-eq (x ∷ a) [] h = ground arith
strcmp-eq (x ∷ a) (y ∷ b) h = ground (arith, strcmp-eq a b)

abbrev flip? : Option Ordering → Option Ordering
flip? none = none
flip? (some r) = some (flip r)

prefix-flip : (xs ys : List ℕ) → compare_prefix ys xs ≡ flip? (compare_prefix xs ys)
unfolding compare_prefix flip
prefix-flip [] [] = refl
prefix-flip [] (y ∷ ys) = refl
prefix-flip (x ∷ xs) [] = refl
prefix-flip (x ∷ xs) (y ∷ ys) = ground (arith, prefix-flip xs ys)

prefix-ne-eq : (xs ys : List ℕ) → compare_prefix xs ys ≡ some Ordering.eq → ⊥
unfolding compare_prefix
prefix-ne-eq [] ys h = cc
prefix-ne-eq (x ∷ xs) [] h = cc
prefix-ne-eq (x ∷ xs) (y ∷ ys) h = ground (arith, prefix-ne-eq xs ys)

-- What the comparison makes of the numbers and the bytes.
abbrev decide : Option Ordering → Str → Str → Ordering
decide r a b = elim r [ none ↦ strcmp a b | some o ↦ o ]

decide-flip : (r : Option Ordering) (a b : Str) → decide (flip? r) b a ≡ flip (decide r a b)
decide-flip none a b = strcmp-flip a b
decide-flip (some o) a b = refl

swapped :
    (a b : Str) → compare_versions (some b) (some a) ≡ flip (compare_versions (some a) (some b))
swapped a b =
    compare_versions-numbers b a
    ∙ ap (λ r. decide r b a) (prefix-flip (numbers a) (numbers b))
    ∙ decide-flip (compare_prefix (numbers a) (numbers b)) a b
    ∙ ap flip (sym (compare_versions-numbers a b))

decide-eq :
    (r : Option Ordering) (a b : Str)
    → (r ≡ some Ordering.eq → ⊥)
    → decide r a b ≡ Ordering.eq
    → a ≡ b
decide-eq none a b ne h = strcmp-eq a b h
decide-eq (some o) a b ne h = absurd (ne (ap some h))

-- Swapping the arguments of `compare_versions` turns the answer round, NULL included, and only equal
-- strings compare as equal.
pub compare_versions-flip :
    (a b : Option Str)
    → (compare_versions b a ≡ flip (compare_versions a b))
      × (compare_versions a b ≡ Ordering.eq → a ≡ b)
unfolding compare_versions flip
compare_versions-flip none none = (refl, λ h. refl)
compare_versions-flip none (some b) = (refl, λ h. ground arith)
compare_versions-flip (some a) none = (refl, λ h. ground arith)
compare_versions-flip (some a) (some b) = (
  swapped a b,
  λ h. ap some (
      decide-eq (compare_prefix (numbers a) (numbers b)) a b (prefix-ne-eq (numbers a) (numbers b))
        (sym (compare_versions-numbers a b) ∙ h)),
)

-- `compare_versions` is no order: for any byte above the digits, such as the `v` of `v1`, it puts
-- "v1" below "v1.3", that below "1.5", and that below "v1".
pub compare_versions-cycle :
    (v : ℕ)
    → b'9' < v
    → (compare_versions (some (v ∷ codes "1")) (some (v ∷ codes "1.3")) ≡ Ordering.lt)
      × (compare_versions (some (v ∷ codes "1.3")) (some (codes "1.5")) ≡ Ordering.lt)
      × (compare_versions (some (codes "1.5")) (some (v ∷ codes "1")) ≡ Ordering.lt)
unfolding compare_versions compare_numbers read_version_number strcmp
compare_versions-cycle v h = (ground arith, ground arith, ground arith)
