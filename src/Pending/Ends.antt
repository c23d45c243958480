-- ===== src/Pending/Ends.antt =====
-- `pending_push` adds at the end of the queue, and `pending_pop` takes from its front.
use linyaps_store.Base.{
  ℕ, ◌≡◌, ◌≢◌, refl, sym, ap, ◌∙◌, Option, none, some, List, [], ◌∷◌, ◌++◌, ok, Returns, read, set,
}
use linyaps_store.Pending.{Pointer, PendingOp, Heap, Pending, pending_push, pending_pop}
use linyaps_store.Pending.Cells.{read-set_other, read-set_same}
use linyaps_store.Pending.Queue.{
  Node, Op, last_at, cell, Linked, Absent, Separate, IsQueue, Holds, contents, Linked-set,
  Absent-free,
}

Absent-append :
    (a : ℕ) (xs : List Node) (n : Node) → Absent a xs → n.at ≢ a → Absent a (xs ++ n ∷ [])
Absent-append a [] n h ne = (ne, tt)
Absent-append a (x ∷ xs) n h ne = (h.0, Absent-append a xs n h.1 ne)

Separate-append :
    (xs : List Node) (n : Node) → Separate xs → Absent n.at xs → Separate (xs ++ n ∷ [])
Separate-append [] n s h = (tt, tt)
Separate-append (x ∷ xs) n s h =
    (Absent-append x.at xs n s.0 (λ e. h.0 (sym e)), Separate-append xs n s.1 h.1)

last_at-append : (xs : List Node) (n : Node) → last_at (xs ++ n ∷ []) ≡ some n.at
last_at-append [] n = refl
last_at-append (x ∷ []) n = refl
last_at-append (x ∷ y ∷ xs) n = last_at-append (y ∷ xs) n

contents-append : (xs : List Node) (n : Node) → contents (xs ++ n ∷ []) ≡ contents xs ++ n.op ∷ []
contents-append [] n = refl
contents-append (x ∷ xs) n = ap (λ t. x.op ∷ t) (contents-append xs n)

-- The last node of a list, and the list that a new node `n` behind it makes.
record Linkable (h : Heap) (x : Node) (xs : List Node) (n : Node) : Type 0 where
  last : ℕ
  op : PendingOp
  is_last : last_at (x ∷ xs) ≡ some last
  loaded : read h last ≡ ok (some op)
  outside : (a : ℕ) → Absent a (x ∷ xs) → last ≢ a
  relinked : Linked (set h last (some (record op { next = some n.at }))) (x ∷ (xs ++ n ∷ []))

link_end :
    (h : Heap) (x : Node) (xs : List Node) (n : Node)
    → Linked h (x ∷ xs)
    → Separate (x ∷ xs)
    → Absent n.at (x ∷ xs)
    → read h n.at ≡ ok (some (cell n []))
    → Linkable h x xs n
link_end h x [] n l s ab e = record {
  last = x.at;
  op = cell x [];
  is_last = refl;
  loaded = l.0;
  outside = λ a ab'. ab'.0;
  relinked = (
    read-set_same h x.at (some (cell x [])) (some (cell x (n ∷ []))) l.0,
    (read-set_other h x.at n.at (some (cell x (n ∷ []))) (λ p. ab.0 (sym p)) ∙ e, tt),
  );
}
link_end h x (y ∷ ys) n l s ab e =
    let k = link_end h y ys n l.1 s.1 ab.1 e in
    record {
      last = k.last;
      op = k.op;
      is_last = k.is_last;
      loaded = k.loaded;
      outside = λ a ab'. k.outside a ab'.1;
      relinked = (
        read-set_other h k.last x.at (some (record k.op { next = some n.at }))
              (λ p. k.outside x.at s.0 (sym p))
            ∙ l.0,
        k.relinked,
      );
    }

module _ (s : Pending) (a : ℕ) (cb userdata : Pointer) (free : read s.heap a ≡ ok none) where
  abbrev added : Node
  added = record { at = a; op = (cb, userdata) }

  abbrev grown : Heap
  grown = set s.heap a (some (cell added []))

  pushed :
      (xs : List Node)
      → IsQueue s xs
      → Returns (pending_push s (some a) cb userdata) λ r. IsQueue r (xs ++ added ∷ [])
  unfolding pending_push
  pushed [] q = (
    record { heap = grown; head = some a; tail = some a },
    rw q.ends,
    record {
      starts = refl;
      ends = refl;
      linked = (read-set_same s.heap a none (some (cell added [])) free, tt);
      separate = (tt, tt);
    },
  )
  pushed (x ∷ xs) q =
      let ab = Absent-free s.heap a (x ∷ xs) free q.linked in
      let k =
        link_end grown x xs added (Linked-set s.heap a (some (cell added [])) (x ∷ xs) ab q.linked)
          q.separate ab (read-set_same s.heap a none (some (cell added [])) free) in
      (
        record {
          heap = set grown k.last (some (record k.op { next = some a }));
          head = s.head;
          tail = some a;
        },
        rw (q.ends ∙ k.is_last, k.loaded),
        record {
          starts = q.starts;
          ends = sym (last_at-append (x ∷ xs) added);
          linked = k.relinked;
          separate = Separate-append (x ∷ xs) added q.separate ab;
        },
      )

  -- With a free node for it, `pending_push` on a queue ends, faults nowhere and adds the operation
  -- at the end of the queue.
  pub pending_push-Holds :
      (q : List Op)
      → Holds s q
      → Returns (pending_push s (some a) cb userdata) λ r. Holds r (q ++ (cb, userdata) ∷ [])
  pending_push-Holds q h =
      let (r, run, shape) = pushed h.nodes h.shape in
      (
        r,
        run,
        record {
          nodes = h.nodes ++ added ∷ [];
          shape = shape;
          carries = contents-append h.nodes added ∙ ap (λ t. t ++ (cb, userdata) ∷ []) h.carries;
        },
      )

-- What a queue gives first, and what it keeps then.
abbrev pub front : List Op → Option Op
front [] = none
front (o ∷ q) = some o

abbrev pub rest : List Op → List Op
rest [] = []
rest (o ∷ q) = q

popped :
    (s : Pending) (xs : List Node)
    → IsQueue s xs
    → Returns (pending_pop s) λ r. (r.0 ≡ front (contents xs)) × Holds r.1 (rest (contents xs))
unfolding pending_pop
popped s [] q = ((none, s), rw q.starts, (refl, record { nodes = []; shape = q; carries = refl }))
popped s (x ∷ []) q = (
  (some x.op, record { heap = set s.heap x.at none; head = none; tail = none }),
  rw (q.starts, q.linked.0),
  (
    refl,
    record {
      nodes = [];
      shape = record { starts = refl; ends = refl; linked = tt; separate = tt };
      carries = refl;
    },
  ),
)
popped s (x ∷ y ∷ xs) q = (
  (some x.op, record { heap = set s.heap x.at none; head = some y.at; tail = s.tail }),
  rw (q.starts, q.linked.0),
  (
    refl,
    record {
      nodes = y ∷ xs;
      shape = record {
        starts = refl;
        ends = q.ends;
        linked = Linked-set s.heap x.at none (y ∷ xs) q.separate.0 q.linked.1;
        separate = q.separate.1;
      };
      carries = refl;
    },
  ),
)

-- `pending_pop` on a queue ends, faults nowhere, returns the operation at the front of the queue,
-- or that there is none, and takes it off the queue.
pub pending_pop-Holds :
    (s : Pending) (q : List Op)
    → Holds s q
    → Returns (pending_pop s) λ r. (r.0 ≡ front q) × Holds r.1 (rest q)
pending_pop-Holds s q h =
    let (r, run, (e, k)) = popped s h.nodes h.shape in
    (
      r,
      run,
      (
        e ∙ ap front h.carries,
        record { nodes = k.nodes; shape = k.shape; carries = k.carries ∙ ap rest h.carries },
      ),
    )
