-- ===== src/Updates/Remove.antt =====
-- A finished update leaves the list, and the others stay in order.
use linyaps_store.Base.{
  ℕ, zero, suc, ◌+◌, ◌-◌, ◌<◌, ◌≡◌, refl, sym, ap, ◌∙◌, Option, none, some, List, [], ◌∷◌, ◌++◌,
  true, false, Run, ok, fault, ◌>>=◌, Returns, read, set, ltb, ◌==◌, length, arith, Bool-cases, inl,
  inr,
}
use mathlib.Core.Path.{subst}
use linyaps_store.Updates.{StoreUpdateItem, shift, on_update_finished}

abbrev pub Items : Type 0
Items = List StoreUpdateItem

-- The list without its i-th item.
abbrev pub without : Items → ℕ → Items
without [] i = []
without (x ∷ xs) zero = xs
without (x ∷ xs) (suc i) = x ∷ without xs i

shift_round :
    (n i : ℕ) (x : StoreUpdateItem) (xs : Items)
    → ((ys : Items) → shift n (suc (i + 1)) (x ∷ ys) ≡ (shift n (i + 1) ys >>= λ r. ok (x ∷ r)))
    → (r : Run StoreUpdateItem)
    → (r >>= λ item. shift n (suc (i + 1)) (x ∷ set xs i item))
      ≡ (r >>= λ item. shift n (i + 1) (set xs i item)) >>= λ r. ok (x ∷ r)
shift_round n i x xs h (fault why) = refl
shift_round n i x xs h (ok item) = h (set xs i item)

shift_cons :
    (n i : ℕ) (x : StoreUpdateItem) (xs : Items)
    → shift n (suc i) (x ∷ xs) ≡ (shift n i xs >>= λ r. ok (x ∷ r))
unfolding shift
shift_cons zero i x xs = refl
shift_cons (suc n) i x xs =
    let next : suc i + 1 ≡ suc (i + 1) = omega arith in
    ap (λ k. read (x ∷ xs) k >>= λ item. shift n k (x ∷ set xs i item)) next
    ∙ shift_round n i x xs (shift_cons n (i + 1) x) (read xs (i + 1))

-- What the loop does from the first item on.
shift_front :
    (x : StoreUpdateItem) (xs : Items)
    → Returns (shift (length xs) 0 (x ∷ xs)) λ r. (last : StoreUpdateItem) × (r ≡ xs ++ last ∷ [])
unfolding shift
shift_front x [] = (x ∷ [], refl, (x, refl))
shift_front x (y ∷ ys) =
    let (r, run, (last, e)) = shift_front y ys in
    (
      y ∷ r,
      shift_cons (length ys) 0 y (y ∷ ys) ∙ ap (λ t. t >>= λ r. ok (y ∷ r)) run,
      (last, ap (λ t. y ∷ t) e),
    )

-- The array after the loop: what is left, and the last item once more behind it.
shift_lem :
    (n i : ℕ) (xs : Items)
    → i + n + 1 ≡ length xs
    → Returns (shift n i xs) λ r. (last : StoreUpdateItem) × (r ≡ without xs i ++ last ∷ [])
shift_lem n i [] h = absurd (omega arith)
shift_lem n zero (x ∷ xs) h =
    let (r, run, left) = shift_front x xs in
    (r, ap (λ k. shift k 0 (x ∷ xs)) {x = n} (omega arith) ∙ run, left)
shift_lem n (suc i) (x ∷ xs) h =
    let (r, run, (last, e)) = shift_lem n i xs (omega arith) in
    (x ∷ r, shift_cons n i x xs ∙ ap (λ t. t >>= λ r. ok (x ∷ r)) run, (last, ap (λ t. x ∷ t) e))

length-without : (xs : Items) (i : ℕ) → i < length xs → length (without xs i) + 1 ≡ length xs
length-without [] i h = elim h [ ]
length-without (x ∷ xs) zero h = omega arith
length-without (x ∷ xs) (suc i) h = omega (arith, length-without xs i (omega arith))

-- What the array is when these items are left: none at all for no items, else the items and what the
-- last place had.
abbrev pub IsLeft : Items → Option Items → Type 0
IsLeft [] array = array ≡ none
IsLeft (x ∷ xs) array = (last : StoreUpdateItem) × (array ≡ some ((x ∷ xs) ++ last ∷ []))

some-IsLeft :
    (left : Items) (last : StoreUpdateItem)
    → (length left == 0) ≡ false
    → IsLeft left (some (left ++ last ∷ []))
some-IsLeft [] last h = absurd (ground arith)
some-IsLeft (x ∷ xs) last h = (last, refl)

-- When the update at an index of the array finishes, the others stay in order in front of the
-- array, which keeps one item more in its last place, and the new count is theirs; exactly if none
-- is left there is no array. No item is read outside the array.
pub on_update_finished-without :
    (xs : Items) (i : ℕ)
    → i < length xs
    → Returns
        (on_update_finished (some xs) (length xs) i)
        λ r. (r.1 ≡ length (without xs i)) × IsLeft (without xs i) r.0
unfolding on_update_finished
on_update_finished-without xs i h =
    let (r, run, (last, e)) = shift_lem (length xs - 1 - i) i xs (omega arith) in
    let l = length-without xs i h in
    let within : ltb i (length xs) ≡ true = ground arith in
    let fewer : length xs - 1 ≡ length (without xs i) = omega arith in
    elim (Bool-cases ((length xs - 1) == 0)) [
      | inl emptied ↦ (
        (none, 0),
        rw (within, run, ◌>>=◌, emptied),
        (
          ground arith,
          subst (λ left. IsLeft left none) (sym (nothing (without xs i) (ground arith))) refl,
        ),
      )
      | inr others ↦ (
        (some r, length xs - 1),
        rw (within, run, ◌>>=◌, others),
        (
          fewer,
          subst (λ z. IsLeft (without xs i) (some z)) (sym e)
              (some-IsLeft (without xs i) last (ap (λ n. n == 0) (sym fewer) ∙ others)),
        ),
      )
    ]
  where
    nothing : (ys : Items) → length ys ≡ 0 → ys ≡ []
    nothing [] h = refl
    nothing (y ∷ ys) h = absurd (omega arith)
