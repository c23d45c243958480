-- ===== src/Context/Signals.antt =====
-- lib/linyaps_task.c: the handlers of the signals of the package manager. What sd-bus reads from a
-- message, and its answers, are arguments. `dupstr` has memory or not as the allocator says.
use linyaps_store.Base.{
  ℕ, Option, none, some, List, [], ◌∷◌, Bool, true, false, ◌&&◌, Run, ok, ◌>>=◌, read, set,
  if◌then◌else◌, Str, codes, same, ℤ, is_negative, minus_enospc, Allocator,
}
use linyaps_store.Types.{TaskProgress, blank_progress}
use linyaps_store.Pending.{Pointer, pending_pop}
use linyaps_store.Context.{
  Context, Event, TaskEntry, blank_entry, report, notify_failed, find_task, alloc_task,
}

-- The i-th `dupstr` of an operation.
abbrev pub dupstr : Allocator → ℕ → Option Str → Option Str
dupstr a i none = none
dupstr a i (some s) = if a.strdup i s then some s else none

-- What reading the properties of a task gives; none when `sd_bus_get_property` fails.
pub record Properties : Type 0 where
  pub state : Option ℤ
  pub percentage : Option ℕ
  pub message : Option (Option Str)
  pub code : Option ℤ

abbrev pub or_kept {ℓ} : {A : Type ℓ} → Option A → A → A
or_kept none kept = kept
or_kept (some a) kept = a

-- `read_task_properties`
unfoldable pub read_task_properties : Allocator → Properties → TaskEntry → TaskEntry
read_task_properties a p te = record te {
  progress = record te.progress {
    state = or_kept p.state te.progress.state;
    percentage = or_kept p.percentage te.progress.percentage;
    message = elim p.message [ none ↦ te.progress.message | some m ↦ dupstr a 2 m ];
    error_code = or_kept p.code te.progress.error_code;
  };
}

-- `*te` as `on_task_added` fills it in before it subscribes.
abbrev pub new_entry : Allocator → Str → Pointer → Pointer → TaskEntry
new_entry a path cb userdata = record blank_entry {
  active = true;
  ctx = true;
  path = dupstr a 0 (some path);
  cb = cb;
  userdata = userdata;
  progress = record blank_progress { object_path = dupstr a 1 (some path) };
}

-- What the two calls of `sd_bus_add_match` return, and the slots that they set.
pub record Matches : Type 0 where
  pub progress : ℤ
  pub slot : Pointer
  pub interaction : ℤ
  pub interaction_slot : Pointer

-- The part of `on_task_added` on the free entry `te`, which it has filled in: the entry afterwards
-- and the callbacks made.
unfoldable pub subscribe : Allocator → Matches → Properties → TaskEntry → TaskEntry × List Event
unfolding read_task_properties
subscribe a m p te =
    if is_negative m.progress
    then (
      blank_entry,
      notify_failed te.cb te.userdata (some (codes "failed to subscribe task progress")) m.progress,
    )
    else if is_negative m.interaction
    then (
      blank_entry,
      notify_failed te.cb te.userdata (some (codes "failed to subscribe task interaction"))
          m.interaction,
    )
    else (let te' =
          read_task_properties a p
            (record te { slot = m.slot; interaction_slot = m.interaction_slot }) in
        (te', report te'.cb te'.progress te'.userdata))

-- What becomes of the operation that was taken off the queue.
unfoldable pub place_task :
    Allocator → Matches → Properties → Context → Str → Pointer × Pointer → Context × List Event
unfolding subscribe
place_task a m p ctx path op = elim (alloc_task ctx.tasks) [
  | none ↦ (ctx, notify_failed op.0 op.1 (some (codes "too many active tasks")) minus_enospc)
  | some i ↦
      let r = subscribe a m p (new_entry a path op.0 op.1) in
      (record ctx { tasks = set ctx.tasks i r.0 }, r.1)
]

-- `on_task_added`; `path` is what the message holds, none if it cannot be read.
unfoldable pub on_task_added :
    Allocator → Matches → Properties → Context → Option Str → Run (Context × List Event)
unfolding place_task
on_task_added a m p ctx none = ok (ctx, [])
on_task_added a m p ctx (some path) = pending_pop ctx.pending >>= λ r.
    let ctx' = record ctx { pending = r.1 } in
    elim r.0 [ none ↦ ok (ctx', []) | some op ↦ ok (place_task a m p ctx' path op) ]

-- `on_task_removed`
unfoldable pub on_task_removed :
    Allocator → Properties → Context → Option Str → Run (Context × List Event)
unfolding read_task_properties
on_task_removed a p ctx none = ok (ctx, [])
on_task_removed a p ctx (some path) = elim (find_task ctx.tasks path) [
  | none ↦ ok (ctx, [])
  | some i ↦ do
    te ← read ctx.tasks i
    let te' = read_task_properties a p te
    ok (record ctx { tasks = set ctx.tasks i blank_entry }, report te'.cb te'.progress te'.userdata)
]

-- An entry of the dictionary of `PropertiesChanged`: its key, the signature of its value, and what
-- reading the value as one type or another gives.
pub record Change : Type 0 where
  pub key : Str
  pub sig : Option Str
  pub int32 : ℤ
  pub double : ℕ
  pub text : Option Str

-- `strcmp(key, name) == 0 && sig && strcmp(sig, type) == 0`
abbrev pub is_change : Change → Str → Str → Bool
is_change c name type = same c.key name && elim c.sig [ none ↦ false | some s ↦ same s type ]

-- The body of the loop of `on_properties_changed`.
unfoldable pub apply_change : Allocator → Change → TaskProgress → TaskProgress
apply_change a c p =
    if is_change c (codes "State") (codes "i")
    then record p { state = c.int32 }
    else if is_change c (codes "Percentage") (codes "d")
    then record p { percentage = c.double }
    else if is_change c (codes "Message") (codes "s")
    then record p { message = dupstr a 0 c.text }
    else if is_change c (codes "Code") (codes "i")
    then record p { error_code = c.int32 }
    else p

unfoldable pub apply_changes : Allocator → List Change → TaskProgress → TaskProgress
apply_changes a [] p = p
apply_changes a (c ∷ cs) p = apply_changes a cs (apply_change a c p)

-- `on_properties_changed` of the task at the index `i`; the changes are none if the dictionary cannot
-- be entered. The match that calls the handler is undone when the task is cleared.
unfoldable pub on_properties_changed :
    Allocator → Context → ℕ → Option Str → Option (List Change) → Run (Context × List Event)
unfolding apply_changes
on_properties_changed a ctx i none changes = ok (ctx, [])
on_properties_changed a ctx i (some iface) none = ok (ctx, [])
on_properties_changed a ctx i (some iface) (some changes) =
    if same iface (codes "org.deepin.linglong.Task1")
    then (read ctx.tasks i >>= λ te.
        let p = apply_changes a changes te.progress in
        ok (
          record ctx { tasks = set ctx.tasks i (record te { progress = p }) },
          report te.cb p te.userdata,
        ))
    else ok (ctx, [])
