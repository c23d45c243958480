-- ===== src/Context.antt =====
-- The state of the library: `struct LinyapsContext` of lib/linyaps_private.h, and the helpers on its
-- table of tasks and its list of searches (lib/linyaps_task.c, lib/linyaps_util.c). A callback is
-- not run, but recorded as an event; those of the program only post messages to its event loop.
pub mod Calls
pub mod Signals
pub mod Searches
pub mod Invariant
pub mod Requests
pub mod Lifecycle
pub mod Delivery
pub mod Changed
pub mod Prune
mod Examples
use linyaps_store.Base.{
  ℕ, suc, Option, none, some, List, [], ◌∷◌, Bool, true, false, ◌&&◌, if◌then◌else◌, Str, codes,
  same, ℤ, pos, negsuc, is_zero,
}
use linyaps_store.Types.{PackageInfo, TaskProgress, blank_progress, state_failed}
use linyaps_store.Pending.{Pointer, Pending}

-- `ctx`, the pointer back to the context, is whether it is set; a slot is an `sd_bus_slot *`.
pub record TaskEntry : Type 0 where
  pub path : Option Str
  pub ctx : Bool
  pub cb : Pointer
  pub userdata : Pointer
  pub slot : Pointer
  pub interaction_slot : Pointer
  pub progress : TaskProgress
  pub active : Bool

-- `memset(te, 0, sizeof(*te))`
abbrev pub blank_entry : TaskEntry
blank_entry = record {
  path = none;
  ctx = false;
  cb = none;
  userdata = none;
  slot = none;
  interaction_slot = none;
  progress = blank_progress;
  active = false;
}

pub record SearchOp : Type 0 where
  pub job_id : Option Str
  pub cb : Pointer
  pub userdata : Pointer

-- The list of searches is linked through its nodes, which only the context points to.
pub record Context : Type 0 where
  pub bus : Pointer
  pub interaction_cb : Pointer
  pub interaction_userdata : Pointer
  pub pending : Pending
  pub searches : List SearchOp
  pub tasks : List TaskEntry

-- `MAX_TASKS`
abbrev pub max_tasks : ℕ
max_tasks = 16

-- A call of a callback: the function, its arguments and its data.
pub data Event : Type 0 where
  on_progress : ℕ → TaskProgress → Pointer → Event
  on_search : ℕ → Option (List (Option PackageInfo)) → ℕ → ℤ → Option Str → Pointer → Event
  on_completion : ℕ → ℤ → Option Str → Pointer → Event

-- `if (cb) cb(&progress, userdata)`
abbrev pub report : Pointer → TaskProgress → Pointer → List Event
report none p userdata = []
report (some f) p userdata = on_progress f p userdata ∷ []

abbrev pub or_default : Option Str → Str → Str
or_default none d = d
or_default (some s) d = s

unfoldable pub notify_failed : Pointer → Pointer → Option Str → ℤ → List Event
notify_failed cb userdata message code =
    report cb
      (record blank_progress {
        state = state_failed;
        message = some (or_default message (codes "operation failed"));
        error_code = if is_zero code then negsuc 0 else code;
      })
      userdata

abbrev pub next_index : Option ℕ → Option ℕ
next_index none = none
next_index (some i) = some (suc i)

-- `te->active && te->path && strcmp(te->path, path) == 0`
unfoldable pub is_task : TaskEntry → Str → Bool
is_task te path = te.active && elim te.path [ none ↦ false | some p ↦ same p path ]

-- `find_task`: the index of the first active task of this path.
unfoldable pub find_task : List TaskEntry → Str → Option ℕ
find_task [] path = none
find_task (te ∷ tasks) path = elim (is_task te path) [
  | true ↦ some 0
  | false ↦ next_index (find_task tasks path)
]

-- `alloc_task`: the index of the first task that is not active.
unfoldable pub alloc_task : List TaskEntry → Option ℕ
alloc_task [] = none
alloc_task (te ∷ tasks) = elim te.active [ true ↦ next_index (alloc_task tasks) | false ↦ some 0 ]
