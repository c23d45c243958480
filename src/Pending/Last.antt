-- ===== src/Pending/Last.antt =====
-- `pending_pop_tail` takes back what was added last.
use linyaps_store.Base.{
  ℕ, zero, suc, ◌≤◌, ◌≡◌, ◌≢◌, refl, sym, ap, ◌∙◌, Option, none, some, List, [], ◌∷◌, ok, ◌>>=◌,
  Run, Returns, read, set, length, arith,
}
use linyaps_store.Pending.{PendingOp, Heap, Pending, live, pending_pop_tail, find_last, cut}
use linyaps_store.Pending.Cells.{read-set_other, read-set_same}
use linyaps_store.Pending.Queue.{
  Node, Op, last_at, cell, Linked, Absent, Separate, IsQueue, Holds, contents, length-Linked,
}

-- All but the last element.
abbrev pub front_part {ℓ} : {A : Type ℓ} → List A → List A
front_part [] = []
front_part (x ∷ []) = []
front_part (x ∷ y ∷ xs) = x ∷ front_part (y ∷ xs)

contents-front_part : (xs : List Node) → contents (front_part xs) ≡ front_part (contents xs)
contents-front_part [] = refl
contents-front_part (x ∷ []) = refl
contents-front_part (x ∷ y ∷ xs) = ap (λ t. x.op ∷ t) (contents-front_part (y ∷ xs))

Absent-front_part : (a : ℕ) (xs : List Node) → Absent a xs → Absent a (front_part xs)
Absent-front_part a [] h = tt
Absent-front_part a (x ∷ []) h = tt
Absent-front_part a (x ∷ y ∷ xs) h = (h.0, Absent-front_part a (y ∷ xs) h.1)

Separate-front_part : (xs : List Node) → Separate xs → Separate (front_part xs)
Separate-front_part [] s = tt
Separate-front_part (x ∷ []) s = tt
Separate-front_part (x ∷ y ∷ xs) s =
    (Absent-front_part x.at (y ∷ xs) s.0, Separate-front_part (y ∷ xs) s.1)

-- The last two nodes of a list, as the loop finds them, and the list without the last one.
record Found (h : Heap) (x y : Node) (xs : List Node) (f : ℕ) (prev : Option ℕ) : Type 0 where
  before : ℕ
  last : ℕ
  op : PendingOp
  run : find_last f h prev x.at ≡ ok (some before, last)
  loaded : read h before ≡ ok (some op)
  is_last : last_at (front_part (x ∷ y ∷ xs)) ≡ some before
  outside : (a : ℕ) → Absent a (x ∷ y ∷ xs) → (before ≢ a) × (last ≢ a)
  shortened :
      Linked
        (set (set h before (some (record op { next = none }))) last none)
        (front_part (x ∷ y ∷ xs))

find_step :
    (f : ℕ) (h : Heap) (prev : Option ℕ) (a n : ℕ) (op : PendingOp)
    → read h a ≡ ok (some op)
    → op.next ≡ some n
    → find_last (suc f) h prev a ≡ find_last f h (some a) n
unfolding find_last
find_step f h prev a n op e e' = rw (e, e')

find_last-Found :
    (f : ℕ) (h : Heap) (prev : Option ℕ) (x y : Node) (xs : List Node)
    → Linked h (x ∷ y ∷ xs)
    → Separate (x ∷ y ∷ xs)
    → suc (suc (length xs)) ≤ f
    → Found h x y xs f prev
unfolding find_last
find_last-Found zero h prev x y xs l s enough = absurd (omega arith)
find_last-Found (suc zero) h prev x y xs l s enough = absurd (omega arith)
find_last-Found (suc (suc f)) h prev x y [] l s enough = record {
  before = x.at;
  last = y.at;
  op = cell x (y ∷ []);
  run = rw (l.0, ◌>>=◌, l.1.0);
  loaded = l.0;
  is_last = refl;
  outside = λ a ab. (ab.0, ab.1.0);
  shortened = (
    read-set_other (set h x.at (some (cell x []))) y.at x.at none (λ e. s.0.0 (sym e))
        ∙ read-set_same h x.at (some (cell x (y ∷ []))) (some (cell x [])) l.0,
    tt,
  );
}
find_last-Found (suc (suc f)) h prev x y (z ∷ xs) l s enough =
    let k = find_last-Found (suc f) h (some x.at) y z xs l.1 s.1 (omega arith) in
    let apart = k.outside x.at s.0 in
    record {
      before = k.before;
      last = k.last;
      op = k.op;
      run = find_step (suc f) h prev x.at y.at (cell x (y ∷ z ∷ xs)) l.0 refl ∙ k.run;
      loaded = k.loaded;
      is_last = k.is_last;
      outside = λ a ab. k.outside a ab.1;
      shortened = (
        read-set_other (set h k.before (some (record k.op { next = none }))) k.last x.at none
              (λ e. apart.1 (sym e))
            ∙ read-set_other h k.before x.at (some (record k.op { next = none }))
                (λ e. apart.0 (sym e))
            ∙ l.0,
        k.shortened,
      );
    }

-- `pending_pop_tail` by what the head is.
abbrev tail_from : Pending → Option ℕ → Run Pending
tail_from s none = ok s
tail_from s (some a) = find_last (live s.heap) s.heap none a >>= λ r. cut s r.0 r.1

from_head : (s : Pending) (p : Option ℕ) → s.head ≡ p → pending_pop_tail s ≡ tail_from s p
unfolding pending_pop_tail
from_head s p e = by_head s.head ∙ ap (tail_from s) e
  where
    by_head :
        (p : Option ℕ)
        → elim p [
          | none ↦ ok s
          | some a ↦ find_last (live s.heap) s.heap none a >>= λ r. cut s r.0 r.1
        ]
          ≡ tail_from s p
    by_head none = refl
    by_head (some a) = refl

shortened-IsQueue :
    (s : Pending) (xs : List Node)
    → IsQueue s xs
    → Returns (pending_pop_tail s) λ r. IsQueue r (front_part xs)
unfolding cut find_last
shortened-IsQueue s [] q = (s, from_head s none q.starts, q)
shortened-IsQueue s (x ∷ []) q =
    let enough = length-Linked s.heap (x ∷ []) q.linked q.separate in
    (
      record { heap = set s.heap x.at none; head = none; tail = none },
      from_head s (some x.at) q.starts ∙ alone (live s.heap) enough,
      record { starts = refl; ends = refl; linked = tt; separate = tt },
    )
  where
    alone :
        (f : ℕ)
        → 1 ≤ f
        → (find_last f s.heap none x.at >>= λ r. cut s r.0 r.1)
          ≡ ok (record { heap = set s.heap x.at none; head = none; tail = none })
    alone zero lt = elim lt [ ]
    alone (suc f) lt = rw q.linked.0
shortened-IsQueue s (x ∷ y ∷ xs) q =
    let enough = length-Linked s.heap (x ∷ y ∷ xs) q.linked q.separate in
    let k = find_last-Found (live s.heap) s.heap none x y xs q.linked q.separate enough in
    (
      record {
        heap = set (set s.heap k.before (some (record k.op { next = none }))) k.last none;
        head = s.head;
        tail = some k.before;
      },
      from_head s (some x.at) q.starts ∙ rw (k.run, ◌>>=◌, k.loaded),
      record {
        starts = q.starts;
        ends = sym k.is_last;
        linked = k.shortened;
        separate = Separate-front_part (x ∷ y ∷ xs) q.separate;
      },
    )

-- `pending_pop_tail` on a queue ends, faults nowhere and takes the last operation off the queue, if
-- there is one.
pub pending_pop_tail-Holds :
    (s : Pending) (q : List Op)
    → Holds s q
    → Returns (pending_pop_tail s) λ r. Holds r (front_part q)
pending_pop_tail-Holds s q h =
    let (r, run, shape) = shortened-IsQueue s h.nodes h.shape in
    (
      r,
      run,
      record {
        nodes = front_part h.nodes;
        shape = shape;
        carries = contents-front_part h.nodes ∙ ap front_part h.carries;
      },
    )
