-- ===== src/Pending.antt =====
-- lib/linyaps_task.c, the queue of operations that wait for their task: a linked list with a
-- pointer to its last node. The heap is an array of the nodes that may be in use, an address is an
-- index; freeing a node leaves none in its place, and `load` faults there.
pub mod Cells
pub mod Queue
pub mod Ends
pub mod Last
mod Examples
use linyaps_store.Base.{
  ℕ, zero, suc, ◌+◌, Option, none, some, List, [], ◌∷◌, Run, ok, fault, dangling, no_fuel, ◌>>=◌,
  read, set,
}

-- A function pointer or a `void *`, never followed here.
abbrev pub Pointer : Type 0
Pointer = Option ℕ

pub record PendingOp : Type 0 where
  pub cb : Pointer
  pub userdata : Pointer
  pub next : Option ℕ

abbrev pub Heap : Type 0
Heap = List (Option PendingOp)

-- The pointers of the context to the queue, and the heap that they point into.
pub record Pending : Type 0 where
  pub heap : Heap
  pub head : Option ℕ
  pub tail : Option ℕ

abbrev pub load : Heap → ℕ → Run PendingOp
load h a = read h a >>= λ c. elim c [ none ↦ fault dangling | some op ↦ ok op ]

-- How many nodes are in use.
abbrev pub live : Heap → ℕ
live [] = 0
live (none ∷ h) = live h
live (some op ∷ h) = suc (live h)

-- `pending_push`; the second argument is what `calloc` returns.
unfoldable pub pending_push : Pending → Option ℕ → Pointer → Pointer → Run Pending
pending_push s none cb userdata = ok s
pending_push s (some a) cb userdata =
    let h = set s.heap a (some (record { cb = cb; userdata = userdata; next = none })) in
    elim s.tail [
      | none ↦ ok (record { heap = h; head = some a; tail = some a })
      | some t ↦ load h t >>= λ last. ok (record {
        heap = set h t (some (record last { next = some a }));
        head = s.head;
        tail = some a;
      })
    ]

-- `pending_pop`: the callback and its data, or none for `-ENOENT`.
unfoldable pub pending_pop : Pending → Run (Option (Pointer × Pointer) × Pending)
pending_pop s = elim s.head [
  | none ↦ ok (none, s)
  | some a ↦ load s.heap a >>= λ op. ok (
    some (op.cb, op.userdata),
    record {
      heap = set s.heap a none;
      head = op.next;
      tail = elim op.next [ none ↦ none | some n ↦ s.tail ];
    },
  )
]

-- The loop of `pending_pop_tail`: the last node and the one before it.
unfoldable pub find_last : ℕ → Heap → Option ℕ → ℕ → Run (Option ℕ × ℕ)
find_last zero h prev it = fault no_fuel
find_last (suc f) h prev it = do
  op ← load h it
  elim op.next [ none ↦ ok (prev, it) | some n ↦ find_last f h (some it) n ]

-- What `pending_pop_tail` does once it has found the last node.
unfoldable pub cut : Pending → Option ℕ → ℕ → Run Pending
cut s none it = ok (record { heap = set s.heap it none; head = none; tail = none })
cut s (some p) it = do
  op ← load s.heap p
  ok (record s {
    heap = set (set s.heap p (some (record op { next = none }))) it none;
    tail = some p;
  })

-- `pending_pop_tail`. The loop visits a node at most once, so the nodes in use are rounds enough.
unfoldable pub pending_pop_tail : Pending → Run Pending
pending_pop_tail s = elim s.head [
  | none ↦ ok s
  | some a ↦ find_last (live s.heap) s.heap none a >>= λ r. cut s r.0 r.1
]
