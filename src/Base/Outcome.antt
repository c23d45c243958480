-- ===== src/Base/Outcome.antt =====
-- The outcome of a piece of C code: a value, or a fault where C has no defined behaviour or a
-- loop has used up the rounds that the model gives it. Arithmetic of `size_t` wraps at 2 ^ 64.
use Prim.Native.Nat.{ℕ, zero, suc, ◌+◌, ◌*◌, ◌%◌, ◌^◌}
use mathlib.Core.Path.{◌≡◌, refl, ap}
use mathlib.Core.List.{List, [], ◌∷◌}
use mathlib.Core.Option.{Option, none, some}

pub data Fault : Type 0 where
  null_pointer out_of_bounds dangling division_by_zero no_fuel : Fault

pub data Run {κ} (V : Type κ) : Type κ where
  fault : Fault → Run V
  ok : V → Run V

infixl 5 ◌>>=◌
abbrev pub ◌>>=◌ {κ ℓ} : {V : Type κ} {W : Type ℓ} (first : Run V) (next : V → Run W) → Run W
fault why >>= next = fault why
ok v >>= next = next v

-- The code ends normally, in a value that satisfies `Q`.
abbrev pub Returns {κ ℓ} : {V : Type κ} (run : Run V) (Q : V → Type ℓ) → Type (κ ⊔ ℓ)
Returns {V} run Q = (v : V) × (run ≡ ok v) × Q v

abbrev pub add_size : (m n : ℕ) → ℕ
add_size m n = (m + n) % 2 ^ 64

abbrev pub mul_size : ℕ → ℕ → ℕ
mul_size a b = (a * b) % 2 ^ 64

abbrev pub mod_size : ℕ → ℕ → Run ℕ
mod_size a zero = fault division_by_zero
mod_size a (suc b) = ok (a % suc b)

-- `*p`, where `p` may be NULL.
abbrev pub deref {ℓ} : {A : Type ℓ} → Option A → Run A
deref none = fault null_pointer
deref (some a) = ok a

-- `a[i]`
abbrev pub read {ℓ} : {A : Type ℓ} → List A → ℕ → Run A
read [] i = fault out_of_bounds
read (x ∷ xs) zero = ok x
read (x ∷ xs) (suc i) = read xs i

pub ok_inj {ℓ} : {A : Type ℓ} {a b : A} → ok a ≡ ok b → a ≡ b
ok_inj {a = a} p = ap (λ r. elim r [ ok x ↦ x | fault why ↦ a ]) p

-- A sequence that ends normally: both of its parts do.
pub bind-eq-ok {κ ℓ} :
    {V : Type κ} {W : Type ℓ} (first : Run V) (next : V → Run W) {w : W}
    → (first >>= next) ≡ ok w
    → (v : V) × (first ≡ ok v) × (next v ≡ ok w)
bind-eq-ok (ok v) next e = (v, refl, e)
bind-eq-ok (fault why) next e = cc
