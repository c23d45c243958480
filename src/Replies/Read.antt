-- ===== src/Replies/Read.antt =====
-- A rule for the loops over a reply, and what the short replies give.
use mathlib.Core.Path.{subst}
use linyaps_store.Base.{
  ℕ, ◌+◌, ◌≡◌, refl, ap, ◌∙◌, List, [], ◌∷◌, false, Run, ◌>>=◌, Returns, pos, ℤ, is_negative,
  length, Bool-cases, inl, inr, arith,
}
use linyaps_store.Replies.{
  Container, Read, if_taken, read_elements, leave_container, read_container,
}

-- What the elements make of a part of the state, one after another.
abbrev pub fold {ℓ κ} : {A : Type ℓ} {B : Type κ} → (ℕ → A → B → B) → List A → B → B
fold u [] b = b
fold u (x ∷ xs) b = fold u xs (u (length xs) x b)

abbrev pub sum_of {ℓ} : {A : Type ℓ} → (A → ℕ) → List A → ℕ
sum_of w [] = 0
sum_of w (x ∷ xs) = w x + sum_of w xs

abbrev pub All {ℓ κ} : {A : Type ℓ} → (A → Type κ) → List A → Type κ
All G [] = Unit
All G (x ∷ xs) = G x × All G xs

zero_add : (k : ℕ) → 0 + k ≡ k
zero_add k = omega arith

regroup : (a b c : ℕ) → a + b + c ≡ a + (b + c)
regroup a b c = omega arith

-- An answer does not change the state.
pub if_taken-same {ℓ} :
    {S : Type ℓ} (r : ℤ) (s : S) (next : Read S) → next.1 ≡ s → (if_taken r s next).1 ≡ s
if_taken-same r s next e = elim (Bool-cases (is_negative r)) [ inl f ↦ rw f refl | inr f ↦ rw f e ]

-- Where what is returned is no error, the first answer was none.
pub if_taken-first {ℓ} :
    {S : Type ℓ} (r : ℤ) (s : S) (next : Read S)
    → is_negative (if_taken r s next).0 ≡ false
    → is_negative r ≡ false
if_taken-first r s next h = elim (Bool-cases (is_negative r)) [ inl f ↦ cc (rw f at h) | inr f ↦ f ]

module _ {A S B : Type 0} (step : ℕ → A → S → Run (Read S)) (G : A → Type 0) (w : A → ℕ)
    (I : ℕ → S → Type 0) (part : S → B) (u : ℕ → A → B → B) where
  -- Where no error is returned, the state has room for `k` more, and its part is as given.
  abbrev pub Reads : ℕ → B → Read S → Type 0
  Reads k b (r, t) = is_negative r ≡ false → I k t × (part t ≡ b)

  -- An element of weight `w x` takes that much room.
  abbrev pub IsStep : Type 0
  IsStep =
      (n k : ℕ) (x : A) (s : S)
      → G x
      → I (w x + k) s
      → Returns (step n x s) (Reads k (u n x (part s)))

  pub read_elements_lem :
      (k : ℕ) (xs : List A) (s : S)
      → IsStep
      → All G xs
      → I (sum_of w xs + k) s
      → Returns (read_elements step xs s) (Reads k (fold u xs (part s)))
  unfolding read_elements
  read_elements_lem k [] s h g i =
      ((pos 0, s), refl, λ p. (subst (λ n. I n s) (zero_add k) i, refl))
  read_elements_lem k (x ∷ xs) s h g i =
      let (read, e, v) =
        h (length xs) (sum_of w xs + k) x s g.0
          (subst (λ n. I n s) (regroup (w x) (sum_of w xs) k) i) in
      elim (Bool-cases (is_negative read.0)) [
        | inl refused ↦ (read, rw (e, ◌>>=◌, refused) refl, λ p. cc)
        | inr taken ↦
            let (j, same_part) = v taken in
            let (z, f, q) = read_elements_lem k xs read.1 h g.1 j in
            (z, rw (e, ◌>>=◌, taken) f, λ p. ((q p).0, (q p).1 ∙ ap (fold u xs) same_part))
      ]

  leave_container_lem :
      (c : Container A) (k : ℕ) (b : B) (read : Read S)
      → Reads k b read
      → Reads k b (leave_container c read)
  unfolding leave_container
  leave_container_lem c k b (r, t) v = elim (Bool-cases (is_negative r)) [
    | inl e ↦ rw e (λ p. cc (rw e at p))
    | inr e ↦ rw e (ended (v e))
  ]
    where
      ended : I k t × (part t ≡ b) → Reads k b (if_taken c.last t (c.leave, t))
      ended h = elim (Bool-cases (is_negative c.last)) [
        | inl e ↦ rw e (λ p. h)
        | inr e ↦ rw e (λ p. h)
      ]

  -- A whole container, whose answers may still be errors.
  pub read_container_lem :
      (k : ℕ) (c : Container A) (s : S)
      → IsStep
      → All G c.elements
      → I (sum_of w c.elements + k) s
      → Returns (read_container step c s) (Reads k (fold u c.elements (part s)))
  unfolding read_container
  read_container_lem k c s h g i = elim (Bool-cases (is_negative c.enter)) [
    | inl refused ↦ ((c.enter, s), rw refused refl, λ p. cc (rw refused at p))
    | inr taken ↦
        let (read, e, v) = read_elements_lem k c.elements s h g i in
        (
          leave_container c read,
          rw (taken, e, ◌>>=◌) refl,
          leave_container_lem c k (fold u c.elements (part s)) read v,
        )
  ]
