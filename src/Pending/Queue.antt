-- ===== src/Pending/Queue.antt =====
-- The queue that the linked list of lib/linyaps_task.c stands for: the invariant of the list.
use linyaps_store.Base.{
  ℕ, ◌≤◌, ◌≡◌, ◌≢◌, sym, ap, ◌∙◌, Option, none, some, List, [], ◌∷◌, ok, read, set, length, arith,
}
use linyaps_store.Pending.{Pointer, PendingOp, Heap, Pending, live}
use linyaps_store.Pending.Cells.{read-set_other, live-set-none}

-- A node of the list: its address and what it carries.
pub record Node : Type 0 where
  pub at : ℕ
  pub op : Pointer × Pointer

abbrev pub first_at : List Node → Option ℕ
first_at [] = none
first_at (x ∷ xs) = some x.at

abbrev pub last_at : List Node → Option ℕ
last_at [] = none
last_at (x ∷ []) = some x.at
last_at (x ∷ y ∷ xs) = last_at (y ∷ xs)

-- What stands at the address of a node that `xs` follow.
abbrev pub cell : Node → List Node → PendingOp
cell x xs = record { cb = x.op.0; userdata = x.op.1; next = first_at xs }

abbrev pub Linked : Heap → List Node → Type 0
Linked h [] = Unit
Linked h (x ∷ xs) = (read h x.at ≡ ok (some (cell x xs))) × Linked h xs

abbrev pub Absent : ℕ → List Node → Type 0
Absent a [] = Unit
Absent a (x ∷ xs) = (x.at ≢ a) × Absent a xs

abbrev pub Separate : List Node → Type 0
Separate [] = Unit
Separate (x ∷ xs) = Absent x.at xs × Separate xs

pub record IsQueue (s : Pending) (xs : List Node) : Type 0 where
  pub starts : s.head ≡ first_at xs
  pub ends : s.tail ≡ last_at xs
  pub linked : Linked s.heap xs
  pub separate : Separate xs

abbrev pub Op : Type 0
Op = Pointer × Pointer

abbrev pub contents : List Node → List Op
contents [] = []
contents (x ∷ xs) = x.op ∷ contents xs

-- The context holds the queue `q`.
pub record Holds (s : Pending) (q : List Op) : Type 0 where
  pub nodes : List Node
  pub shape : IsQueue s nodes
  pub carries : contents nodes ≡ q

pub Linked-set :
    (h : Heap) (a : ℕ) (v : Option PendingOp) (xs : List Node)
    → Absent a xs
    → Linked h xs
    → Linked (set h a v) xs
Linked-set h a v [] ab l = tt
Linked-set h a v (x ∷ xs) ab l =
    (read-set_other h a x.at v ab.0 ∙ l.0, Linked-set h a v xs ab.1 l.1)

-- A free node is no node of the list.
pub Absent-free :
    (h : Heap) (a : ℕ) (xs : List Node) → read h a ≡ ok none → Linked h xs → Absent a xs
Absent-free h a [] e l = tt
Absent-free h a (x ∷ xs) e l = (λ p. clash (sym (ap (read h) p) ∙ l.0), Absent-free h a xs e l.1)
  where
    clash : read h a ≡ ok (some (cell x xs)) → ⊥
    clash d = cc

pub length-Linked : (h : Heap) (xs : List Node) → Linked h xs → Separate xs → length xs ≤ live h
length-Linked h [] l s = omega arith
length-Linked h (x ∷ xs) l s = omega (
  arith,
  live-set-none h x.at (cell x xs) l.0,
  length-Linked (set h x.at none) xs (Linked-set h x.at none xs s.0 l.1) s.1,
)
