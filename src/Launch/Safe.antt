-- ===== src/Launch/Safe.antt =====
-- Which bytes reach a command line.
use linyaps_store.Base.{
  sym, some_inj, ==_iff, ◌==◌, leb, ◌&&◌, ◌||◌, ℕ, ◌≤◌, ◌≡◌, ◌↔◌, refl, Option, none, some, List,
  [], ◌∷◌, Bool, true, false, Bool-cases, ◌⊎◌, inl, inr, arith, Str, codes,
}
use linyaps_store.Launch.{is_safe, all_safe, launch_app}

-- A letter, a digit, or one of `.`, `-`, `_` and `/`.
abbrev pub IsSafe : ℕ → Type 0
IsSafe c =
    ((b'a' ≤ c) × (c ≤ b'z'))
    ⊎ (((b'A' ≤ c) × (c ≤ b'Z'))
        ⊎ (((b'0' ≤ c) × (c ≤ b'9')) ⊎ ((c ≡ b'.') ⊎ ((c ≡ b'-') ⊎ ((c ≡ b'_') ⊎ (c ≡ b'/'))))))

abbrev pub AllSafe : Str → Type 0
AllSafe [] = Unit
AllSafe (c ∷ cs) = IsSafe c × AllSafe cs

or_cases : (a b : Bool) → (a || b) ≡ true → (a ≡ true) ⊎ (b ≡ true)
or_cases true b h = inl refl
or_cases false b h = inr h

or_map {ℓ κ} :
    {A : Type ℓ} {B : Type κ} (a b : Bool)
    → (a ≡ true → A)
    → (b ≡ true → B)
    → (a || b) ≡ true
    → A ⊎ B
or_map a b f g h = elim (or_cases a b h) [ inl e ↦ inl (f e) | inr e ↦ inr (g e) ]

in_range : (a b c : ℕ) → (leb a c && leb c b) ≡ true → (a ≤ c) × (c ≤ b)
in_range a b c h = ground arith

is_byte : (c b : ℕ) → (c == b) ≡ true → c ≡ b
is_byte c b = (==_iff c b).0

is_safe-IsSafe : (c : ℕ) → is_safe c ≡ true → IsSafe c
unfolding is_safe
is_safe-IsSafe c = or_map _ _ (in_range b'a' b'z' c) (
    or_map _ _ (in_range b'A' b'Z' c) (
      or_map _ _ (in_range b'0' b'9' c) (
        or_map _ _ (is_byte c b'.')
          (or_map _ _ (is_byte c b'-') (or_map _ _ (is_byte c b'_') (is_byte c b'/'))))))

IsSafe-is_safe : (c : ℕ) → IsSafe c → is_safe c ≡ true
unfolding is_safe
IsSafe-is_safe c h = ground arith

-- The loop passes exactly the ids of which every byte is safe.
pub all_safe-AllSafe : (s : Str) → (all_safe s ≡ true) ↔ AllSafe s
unfolding all_safe
all_safe-AllSafe [] = (λ _. tt, λ _. refl)
all_safe-AllSafe (c ∷ cs) = elim (Bool-cases (is_safe c)) [
  | inl e ↦
      rw e (λ h. (is_safe-IsSafe c e, (all_safe-AllSafe cs).0 h), λ h. (all_safe-AllSafe cs).1 h.1)
  | inr e ↦ rw e (λ h. cc, λ h. cc (IsSafe-is_safe c h.0))
]

-- `launch_app` spawns a process only for an id that is not empty and of which every byte is a
-- letter, a digit, `.`, `-`, `_` or `/`, and then as `ll-cli run` with the id as the one argument.
pub launch_app-AllSafe :
    (id : Option Str) (args : List Str)
    → launch_app id ≡ some args
    → (c : ℕ) × (cs : Str) × (id ≡ some (c ∷ cs))
      × AllSafe (c ∷ cs)
      × (args ≡ codes "ll-cli" ∷ codes "run" ∷ (c ∷ cs) ∷ [])
unfolding launch_app
launch_app-AllSafe none args h = cc
launch_app-AllSafe (some []) args h = cc
launch_app-AllSafe (some (c ∷ cs)) args h = elim (Bool-cases (all_safe (c ∷ cs))) [
  | inl e ↦ (c, cs, refl, (all_safe-AllSafe (c ∷ cs)).0 e, sym (some_inj (rw e at h)))
  | inr e ↦ cc (rw e at h)
]
