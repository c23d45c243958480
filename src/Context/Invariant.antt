-- ===== src/Context/Invariant.antt =====
-- The invariant of the library's state: the queue of pending operations, and a table of tasks whose
-- free entries are blank. An operation is its callback with its data.
use linyaps_store.Base.{
  Bool, ℕ, zero, suc, ◌+◌, ◌≡◌, refl, ap, ◌∙◌, Option, none, some, List, [], ◌∷◌, true, false, ok,
  read, set, length, length-set, Bool-cases, inl, inr, if◌then◌else◌, Str, arith,
}
use linyaps_store.Pending.{Heap}
use linyaps_store.Pending.Queue.{Op, Holds}
use linyaps_store.Context.{
  Context, TaskEntry, blank_entry, max_tasks, is_task, find_task, alloc_task, next_index,
}

-- What the operations of a list weigh together; equal for all weights means equal up to order.
unfoldable pub weigh : (Op → ℕ) → List Op → ℕ
weigh w [] = 0
weigh w (o ∷ q) = w o + weigh w q

abbrev pub weight_of : (Op → ℕ) → TaskEntry → ℕ
weight_of w te = if te.active then w (te.cb, te.userdata) else 0

-- The weight of the operations that the active tasks run.
unfoldable pub running : (Op → ℕ) → List TaskEntry → ℕ
running w [] = 0
running w (te ∷ tasks) = weight_of w te + running w tasks

abbrev pub BlankIfFree : TaskEntry → Type 0
BlankIfFree te = te.active ≡ false → te ≡ blank_entry

abbrev pub AllBlank : List TaskEntry → Type 0
AllBlank [] = Unit
AllBlank (te ∷ tasks) = BlankIfFree te × AllBlank tasks

-- The context waits for the tasks of the operations `q`.
pub record IsContext (ctx : Context) (q : List Op) : Type 0 where
  pub waiting : Holds ctx.pending q
  pub slots : length ctx.tasks ≡ max_tasks
  pub blank : AllBlank ctx.tasks

-- What `calloc` may answer: no memory, or a node that is not in use.
abbrev pub IsFresh : Heap → Option ℕ → Type 0
IsFresh h none = Unit
IsFresh h (some a) = read h a ≡ ok none

pub running-set :
    (w : Op → ℕ) (tasks : List TaskEntry) (i : ℕ) (te te' : TaskEntry)
    → read tasks i ≡ ok te
    → running w (set tasks i te') + weight_of w te ≡ running w tasks + weight_of w te'
unfolding running
running-set w [] i te te' e = cc
running-set w (x ∷ tasks) zero te te' e = ground arith
running-set w (x ∷ tasks) (suc i) te te' e = omega (arith, running-set w tasks i te te' e)

pub AllBlank-set :
    (tasks : List TaskEntry) (i : ℕ) (te : TaskEntry)
    → BlankIfFree te
    → AllBlank tasks
    → AllBlank (set tasks i te)
AllBlank-set [] i te b h = h
AllBlank-set (x ∷ tasks) zero te b h = (b, h.1)
AllBlank-set (x ∷ tasks) (suc i) te b h = (h.0, AllBlank-set tasks i te b h.1)

next_index-some :
    (o : Option ℕ) (i : ℕ) → next_index o ≡ some i → (j : ℕ) × (o ≡ some j) × (i ≡ suc j)
next_index-some none i e = cc
next_index-some (some j) i e = (j, refl, ground arith)

-- `alloc_task` gives the index of an entry that is not active.
pub alloc_task_lem :
    (tasks : List TaskEntry) (i : ℕ)
    → alloc_task tasks ≡ some i
    → (te : TaskEntry) × (read tasks i ≡ ok te) × (te.active ≡ false)
unfolding alloc_task
alloc_task_lem [] i e = cc
alloc_task_lem (te ∷ tasks) i e = elim (Bool-cases te.active) [
  | inl busy ↦
      let (j, e', at_j) = next_index-some (alloc_task tasks) i (ground arith) in
      let (te', here, free) = alloc_task_lem tasks j e' in
      (te', ap (read (te ∷ tasks)) at_j ∙ here, free)
  | inr free ↦ (te, ground arith, free)
]

-- No active task has this path.
abbrev pub NoTask : List TaskEntry → Str → Type 0
NoTask [] path = Unit
NoTask (te ∷ tasks) path = (is_task te path ≡ false) × NoTask tasks path

pub find_task-NoTask :
    (tasks : List TaskEntry) (path : Str) → find_task tasks path ≡ none → NoTask tasks path
unfolding find_task
find_task-NoTask [] path e = tt
find_task-NoTask (te ∷ tasks) path e =
    by_test (is_task te path) refl e (find_task-NoTask tasks path)
  where
    none_before : (o : Option ℕ) → next_index o ≡ none → o ≡ none
    none_before none p = refl
    none_before (some i) p = cc

    by_test :
        (b : Bool)
        → is_task te path ≡ b
        → elim b [ true ↦ some 0 | false ↦ next_index (find_task tasks path) ] ≡ none
        → (find_task tasks path ≡ none → NoTask tasks path)
        → NoTask (te ∷ tasks) path
    by_test true p f later = cc
    by_test false p f later = (p, later (none_before (find_task tasks path) f))

-- `find_task` gives the index of an active entry of this path.
pub find_task_lem :
    (tasks : List TaskEntry) (path : Str) (i : ℕ)
    → find_task tasks path ≡ some i
    → (te : TaskEntry) × (read tasks i ≡ ok te) × (is_task te path ≡ true)
unfolding find_task
find_task_lem [] path i e = cc
find_task_lem (te ∷ tasks) path i e = elim (Bool-cases (is_task te path)) [
  | inl found ↦ (te, ground arith, found)
  | inr other ↦
      let (j, e', at_j) = next_index-some (find_task tasks path) i (ground arith) in
      let (te', here, found) = find_task_lem tasks path j e' in
      (te', ap (read (te ∷ tasks)) at_j ∙ here, found)
]

-- A blank entry in place of any other.
pub blanked :
    (ctx : Context) (q : List Op) (i : ℕ) (te : TaskEntry)
    → BlankIfFree te
    → IsContext ctx q
    → IsContext (record ctx { tasks = set ctx.tasks i te }) q
blanked ctx q i te b h = record {
  waiting = h.waiting;
  slots = length-set ctx.tasks i te ∙ h.slots;
  blank = AllBlank-set ctx.tasks i te b h.blank;
}
