-- ===== src/Pending/Cells.antt =====
-- Reading and writing the nodes of a heap.
use linyaps_store.Base.{
  ℕ, zero, suc, ◌+◌, ◌≡◌, ◌≢◌, refl, ap, none, some, List, [], ◌∷◌, ok, read, set, arith,
}
use linyaps_store.Pending.{PendingOp, Heap, live}

module _ {ℓ} {A : Type ℓ} where
  pub read-set_other : (h : List A) (a i : ℕ) (v : A) → i ≢ a → read (set h a v) i ≡ read h i
  read-set_other [] a i v ne = refl
  read-set_other (x ∷ h) zero zero v ne = absurd (ne refl)
  read-set_other (x ∷ h) zero (suc i) v ne = refl
  read-set_other (x ∷ h) (suc a) zero v ne = refl
  read-set_other (x ∷ h) (suc a) (suc i) v ne = read-set_other h a i v (λ e. ne (ap suc e))

  pub read-set_same : (h : List A) (a : ℕ) (w v : A) → read h a ≡ ok w → read (set h a v) a ≡ ok v
  read-set_same [] a w v e = cc
  read-set_same (x ∷ h) zero w v e = refl
  read-set_same (x ∷ h) (suc a) w v e = read-set_same h a w v e

-- Freeing a node in use leaves one less in use.
pub live-set-none :
    (h : Heap) (a : ℕ) (op : PendingOp) → read h a ≡ ok (some op) → live h ≡ live (set h a none) + 1
live-set-none [] a op e = cc
live-set-none (none ∷ h) zero op e = cc
live-set-none (some x ∷ h) zero op e = omega arith
live-set-none (none ∷ h) (suc a) op e = live-set-none h a op e
live-set-none (some x ∷ h) (suc a) op e = omega (arith, live-set-none h a op e)
