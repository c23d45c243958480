-- ===== src/Filter/Arrays.antt =====
-- The array of results: its front as kept packages, and reading and writing in two parts of an array.
use linyaps_store.Base.{
  ℕ, zero, suc, ◌+◌, ◌<◌, ◌≡◌, refl, ap, ◌∙◌, Option, some, List, [], ◌∷◌, ◌++◌, read, set, length,
  arith,
}
use linyaps_store.Types.{PackageInfo}

abbrev pub Pointers : Type 0
Pointers = List (Option PackageInfo)

-- The kept packages as the front of the array.
abbrev pub pointers : List PackageInfo → Pointers
pointers [] = []
pointers (x ∷ xs) = some x ∷ pointers xs

pub length-pointers : (xs : List PackageInfo) → length (pointers xs) ≡ length xs
length-pointers [] = refl
length-pointers (x ∷ xs) = ap suc (length-pointers xs)

module _ {ℓ} {A : Type ℓ} where
  pub read-append_left : (xs ys : List A) (i : ℕ) → i < length xs → read (xs ++ ys) i ≡ read xs i
  read-append_left [] ys i h = elim h [ ]
  read-append_left (x ∷ xs) ys zero h = refl
  read-append_left (x ∷ xs) ys (suc i) h = read-append_left xs ys i (omega arith)

  pub read-append_right : (xs ys : List A) (i : ℕ) → read (xs ++ ys) (length xs + i) ≡ read ys i
  read-append_right [] ys i = ap (read ys) (omega arith)
  read-append_right (x ∷ xs) ys i =
      ap (read (x ∷ (xs ++ ys))) {y = suc (length xs + i)} (omega arith) ∙ read-append_right xs ys i

  pub set-append_left :
      (xs ys : List A) (i : ℕ) (v : A) → i < length xs → set (xs ++ ys) i v ≡ set xs i v ++ ys
  set-append_left [] ys i v h = elim h [ ]
  set-append_left (x ∷ xs) ys zero v h = refl
  set-append_left (x ∷ xs) ys (suc i) v h =
      ap (λ t. x ∷ t) (set-append_left xs ys i v (omega arith))

  pub set-append_here :
      (xs ys : List A) (y v : A) → set (xs ++ (y ∷ ys)) (length xs) v ≡ xs ++ (v ∷ ys)
  set-append_here [] ys y v = refl
  set-append_here (x ∷ xs) ys y v = ap (λ t. x ∷ t) (set-append_here xs ys y v)

pub pointers-append : (xs ys : List PackageInfo) → pointers (xs ++ ys) ≡ pointers xs ++ pointers ys
pointers-append [] ys = refl
pointers-append (x ∷ xs) ys = ap (λ t. some x ∷ t) (pointers-append xs ys)
