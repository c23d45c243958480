-- ===== src/Context/Lifecycle.antt =====
-- The life of an operation: the signals of the package manager move it from the queue to the table
-- of tasks, and off the table at its end. None is lost, and none runs twice.
use linyaps_store.Base.{
  ℕ, ◌+◌, ◌≡◌, refl, ap, ◌⊎◌, inl, inr, Option, none, some, Option-cases, List, [], ◌∷◌, Bool, true,
  false, ok, Returns, read, set, Bool-cases, if◌then◌else◌, Str, ℤ, codes, same, same_iff, ◌&&◌,
  is_negative, minus_enospc, Allocator, arith,
}
use linyaps_store.Types.{TaskProgress}
use linyaps_store.Pending.Queue.{Op}
use linyaps_store.Pending.Ends.{pending_pop-Holds, front, rest}
use linyaps_store.Context.{
  Context, Event, TaskEntry, blank_entry, report, notify_failed, is_task, find_task, alloc_task,
}
use linyaps_store.Context.Signals.{
  Properties, Matches, new_entry, read_task_properties, subscribe, place_task, on_task_added,
  on_task_removed,
}
use linyaps_store.Context.Invariant.{
  NoTask, find_task-NoTask, IsContext, running, weight_of, running-set, alloc_task_lem,
  find_task_lem, blanked,
}

-- Both matches for the signals of the task were added.
abbrev pub subscribed : Matches → Bool
subscribed m =
    if is_negative m.progress then false else if is_negative m.interaction then false else true

-- What becomes of the operation `o` that a signal takes off the queue: it runs, and its callback is
-- told of its progress; or, with the table full or a match refused, the tasks run what they ran,
-- and its callback is told of a failure.
pub data Started (tasks : List TaskEntry) (m : Matches) (o : Op) (r : Context × List Event)
    : Type 0 where
  runs :
      (p : TaskProgress)
      → r.1 ≡ report o.0 p o.1
      → subscribed m ≡ true
      → ((w : Op → ℕ) → running w r.0.tasks ≡ running w tasks + w o)
      → Started tasks m o r
  refused :
      (message : Option Str) (code : ℤ)
      → r.1 ≡ notify_failed o.0 o.1 message code
      → (alloc_task tasks ≡ none) ⊎ (subscribed m ≡ false)
      → ((w : Op → ℕ) → running w r.0.tasks ≡ running w tasks)
      → Started tasks m o r

-- What `subscribe` leaves of the entry of `o`.
data Subscribed (m : Matches) (o : Op) (r : TaskEntry × List Event) : Type 0 where
  active :
      (p : TaskProgress)
      → r.1 ≡ report o.0 p o.1
      → subscribed m ≡ true
      → r.0.active ≡ true
      → ((w : Op → ℕ) → weight_of w r.0 ≡ w o)
      → Subscribed m o r
  dropped :
      (message : Option Str) (code : ℤ)
      → r.1 ≡ notify_failed o.0 o.1 message code
      → subscribed m ≡ false
      → r.0 ≡ blank_entry
      → Subscribed m o r

subscribe-Subscribed :
    (a : Allocator) (m : Matches) (p : Properties) (path : Str) (o : Op)
    → Subscribed m o (subscribe a m p (new_entry a path o.0 o.1))
unfolding subscribe read_task_properties
subscribe-Subscribed a m p path o = elim (Bool-cases (is_negative m.progress)) [
  | inl bad ↦
      dropped (some (codes "failed to subscribe task progress")) m.progress (rw bad) (rw bad)
        (rw bad)
  | inr good ↦ elim (Bool-cases (is_negative m.interaction)) [
    | inl bad ↦
        dropped (some (codes "failed to subscribe task interaction")) m.interaction (rw (good, bad))
          (rw (good, bad)) (rw (good, bad))
    | inr fine ↦
        let te = record (new_entry a path o.0 o.1) {
          slot = m.slot;
          interaction_slot = m.interaction_slot;
        } in
        active (read_task_properties a p te).progress (rw (good, fine)) (rw (good, fine))
          (rw (good, fine)) (λ w. rw (good, fine))
  ]
]

module _ (a : Allocator) (m : Matches) (p : Properties) (path : Str) where
  placed :
      (ctx : Context) (q : List Op) (o : Op)
      → IsContext ctx q
      → IsContext (place_task a m p ctx path o).0 q
        × Started ctx.tasks m o (place_task a m p ctx path o)
  unfolding place_task
  placed ctx q o h = elim (Option-cases (alloc_task ctx.tasks)) [
    | inl full ↦
        rw (place_task, full)
          (
            h,
            refused (some (codes "too many active tasks")) minus_enospc refl (inl full) (λ w. refl),
          )
    | inr (i, e) ↦
        let (te, at_i, free) = alloc_task_lem ctx.tasks i e in
        rw (place_task, e) (at_index i te at_i free (subscribe-Subscribed a m p path o))
  ]
    where
      at_index :
          (i : ℕ) (te : TaskEntry)
          → read ctx.tasks i ≡ ok te
          → te.active ≡ false
          → let r = subscribe a m p (new_entry a path o.0 o.1) in
            Subscribed m o r
            → IsContext (record ctx { tasks = set ctx.tasks i r.0 }) q
              × Started ctx.tasks m o (record ctx { tasks = set ctx.tasks i r.0 }, r.1)
      at_index i te at_i free (active p' told both busy weight) =
          let r = subscribe a m p (new_entry a path o.0 o.1) in
          (
            blanked ctx q i r.0 (λ f. cc) h,
            runs p' told both
                (λ w. ground (arith, running-set w ctx.tasks i te r.0 at_i, weight w)),
          )
      at_index i te at_i free (dropped message code told no_match gone) =
          let r = subscribe a m p (new_entry a path o.0 o.1) in
          (
            blanked ctx q i r.0 (λ f. gone) h,
            refused message code told (inr no_match)
                (λ w. ground (arith, running-set w ctx.tasks i te r.0 at_i, ap (weight_of w) gone)),
          )

-- The outcome of `on_task_added` for a queue.
abbrev pub Added : List TaskEntry → Matches → List Op → Context × List Event → Type 0
Added tasks m [] r = (r.0.tasks ≡ tasks) × (r.1 ≡ [])
Added tasks m (o ∷ q) r = Started tasks m o r

is_task-active : (te : TaskEntry) (path : Str) → is_task te path ≡ true → te.active ≡ true
unfolding is_task
is_task-active te path e = ground arith

is_task-path : (te : TaskEntry) (path : Str) → is_task te path ≡ true → te.path ≡ some path
unfolding is_task
is_task-path te path e = same_path te.active te.path e
  where
    same_path :
        (active : Bool) (o : Option Str)
        → (active && elim o [ none ↦ false | some p ↦ same p path ]) ≡ true
        → o ≡ some path
    same_path true (some p) f = ap some ((same_iff p path).0 f)
    same_path true none f = cc
    same_path false o f = cc

module _ (a : Allocator) (p : Properties) (ctx : Context) (q : List Op) (h : IsContext ctx q) where
  -- A TaskAdded signal for a path, in a context that keeps the invariant, ends, faults nowhere,
  -- keeps the invariant and takes the front operation off the queue: it runs then as one task more,
  -- or its callback is told of a failure because the table is full or a match was refused. With no
  -- operation waiting, the tasks stay and no callback is made.
  pub on_task_added-IsContext :
      (m : Matches) (path : Str)
      → Returns
          (on_task_added a m p ctx (some path))
          λ r. IsContext r.0 (rest q) × Added ctx.tasks m q r
  unfolding on_task_added
  on_task_added-IsContext m path =
      let (r, run, (e, held)) = pending_pop-Holds ctx.pending q h.waiting in
      let ctx' = record ctx { pending = r.1 } in
      let h' : IsContext ctx' (rest q) = record {
        waiting = held;
        slots = h.slots;
        blank = h.blank;
      } in
      rw run (by_front ctx' h' r.0 q e)
    where
      by_front :
          (ctx' : Context)
          → IsContext ctx' (rest q)
          → (o : Option Op) (q' : List Op) → o ≡ front q'
          → Returns
              (elim o [ none ↦ ok (ctx', []) | some op ↦ ok (place_task a m p ctx' path op) ])
              λ r. IsContext r.0 (rest q) × Added ctx'.tasks m q' r
      by_front ctx' h' o [] e = ((ctx', []), rw e, (h', (refl, refl)))
      by_front ctx' h' o (x ∷ q') e =
          (place_task a m p ctx' path x, rw e, placed a m p path ctx' (rest q) x h')

  -- A TaskRemoved signal for a path, in a context that keeps the invariant, ends, faults nowhere,
  -- keeps the invariant and the queue. If no active task of the table has this path, nothing
  -- changes. Else the entry of one that has it is blank, and the rest of the context stays: that
  -- task's operation is the one that no longer runs, and its callback is told of its progress once
  -- more, as far as it can be read.
  pub on_task_removed-IsContext :
      (path : Str)
      → Returns (on_task_removed a p ctx (some path)) λ r.
        IsContext r.0 q
        × ((NoTask ctx.tasks path × (r ≡ (ctx, [])))
            ⊎ ((i : ℕ) × (te : TaskEntry) × (read ctx.tasks i ≡ ok te)
                × (te.active ≡ true)
                × (te.path ≡ some path)
                × (r.0 ≡ record ctx { tasks = set ctx.tasks i blank_entry })
                × ((w : Op → ℕ)
                    → running w r.0.tasks + w (te.cb, te.userdata) ≡ running w ctx.tasks)
                × (r.1 ≡ report te.cb (read_task_properties a p te).progress te.userdata)))
  unfolding on_task_removed read_task_properties
  on_task_removed-IsContext path = elim (Option-cases (find_task ctx.tasks path)) [
    | inl nothing ↦ (
      (ctx, []),
      rw (on_task_removed, nothing),
      (h, inl (find_task-NoTask ctx.tasks path nothing, refl)),
    )
    | inr (i, e) ↦
        let (te, at_i, found) = find_task_lem ctx.tasks path i e in
        (
          (
            record ctx { tasks = set ctx.tasks i blank_entry },
            report te.cb (read_task_properties a p te).progress te.userdata,
          ),
          rw (on_task_removed, e, at_i),
          (
            blanked ctx q i blank_entry (λ f. refl) h,
            inr (
              i,
              te,
              at_i,
              is_task-active te path found,
              is_task-path te path found,
              refl,
              λ w. ended w i te at_i (is_task-active te path found),
              refl,
            ),
          ),
        )
  ]
    where
      ended :
          (w : Op → ℕ) (i : ℕ) (te : TaskEntry)
          → read ctx.tasks i ≡ ok te
          → te.active ≡ true
          → running w (set ctx.tasks i blank_entry) + w (te.cb, te.userdata) ≡ running w ctx.tasks
      ended w i te at_i busy = ground (arith, running-set w ctx.tasks i te blank_entry at_i)
