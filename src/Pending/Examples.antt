-- ===== src/Pending/Examples.antt =====
-- The queue at work, and its theorems at a concrete queue.
use linyaps_store.Base.{◌≡◌, refl, none, some, [], ◌∷◌, ◌++◌, ok, ◌>>=◌, Run, Returns}
use linyaps_store.Pending.{Pending, pending_push, pending_pop, pending_pop_tail, find_last, cut}
use linyaps_store.Pending.Queue.{Holds}
use linyaps_store.Pending.Ends.{pending_push-Holds}
use linyaps_store.Pending.Last.{pending_pop_tail-Holds, front_part}

-- What the tests compute with.
program : Unit {0}
unfolding pending_push pending_pop pending_pop_tail find_last cut
program = tt

abbrev empty : Pending
empty = record { heap = none ∷ none ∷ none ∷ []; head = none; tail = none }

empty-Holds : Holds empty []
empty-Holds = record {
  nodes = [];
  shape = record { starts = refl; ends = refl; linked = tt; separate = tt };
  carries = refl;
}

two : Run Pending
two = pending_push empty (some 2) (some 7) none >>= λ s. pending_push s (some 0) (some 8) (some 1)

-- The nodes come in the order in which they were pushed.
two_pops : two >>= (λ s. pending_pop s >>= λ r. ok r.0) ≡ ok (some (some 7, none))
unfolding program two
two_pops = refl

-- After the last one is taken back, the list is as after the first push, up to the freed node.
two_undone : two >>= pending_pop_tail ≡ pending_push empty (some 2) (some 7) none
unfolding program two
two_undone = refl

pushed :
    Returns (pending_push empty (some 2) (some 7) none) λ r. Holds r ([] ++ (some 7, none) ∷ [])
pushed = pending_push-Holds empty 2 (some 7) none refl [] empty-Holds

abbrev one : Pending
one = pushed.0

one-Holds : Holds one ((some 7, none) ∷ [])
one-Holds = pushed.2

pending_pop_tail-Holds_example :
    Returns (pending_pop_tail one) λ r. Holds r (front_part ((some 7, none) ∷ []))
pending_pop_tail-Holds_example = pending_pop_tail-Holds one ((some 7, none) ∷ []) one-Holds
