-- ===== src/Context/Examples.antt =====
-- The library's state at work: a request, its task and its end; and the theorems at these inputs.
use linyaps_store.Base.{
  ℕ, ◌+◌, ◌≡◌, ◌⊎◌, refl, none, some, List, [], ◌∷◌, ◌++◌, true, false, Returns, replicate, length,
  read, set, ok, Str, codes, pos, negsuc,
}
use linyaps_store.Base.Memory.{plenty, plenty-IsPlenty}
use linyaps_store.Types.{blank_info}
use linyaps_store.Pending.Queue.{Op}
use linyaps_store.Pending.Last.{front_part}
use linyaps_store.Filter.Keep.{keep}
use linyaps_store.Filter.Arrays.{Pointers, pointers}
use linyaps_store.Context.{Context, TaskEntry, blank_entry, report, max_tasks}
use linyaps_store.Context.Calls.{replied, not_sent, is_valid_request, call_task_method}
use linyaps_store.Context.Signals.{
  Properties, Matches, Change, on_task_added, on_task_removed, on_properties_changed,
  read_task_properties,
}
use linyaps_store.Context.Searches.{
  SearchAnswer, started, search, answer_search, results, on_search_finished,
}
use linyaps_store.Context.Invariant.{NoTask, IsContext, running}
use linyaps_store.Context.Requests.{Settled, call_task_method-IsContext, call_task_method-no_memory}
use linyaps_store.Context.Lifecycle.{Added, on_task_added-IsContext, on_task_removed-IsContext}
use linyaps_store.Context.Changed.{changed, task_iface, IsOther, on_properties_changed-IsContext}
use linyaps_store.Context.Delivery.{
  NoJob, Around, on_search_finished_lem, Searched, search-Searched,
}

abbrev idle : Context
idle = record {
  bus = some 0;
  interaction_cb = none;
  interaction_userdata = none;
  pending = record { heap = none ∷ none ∷ []; head = none; tail = none };
  searches = record { job_id = some (codes "job"); cb = some 4; userdata = none } ∷ [];
  tasks = replicate max_tasks blank_entry;
}

blanks : (te : TaskEntry) → te ≡ blank_entry → te.active ≡ false → te ≡ blank_entry
blanks te e h = e

idle-IsContext : IsContext idle []
idle-IsContext = record {
  waiting = record {
    nodes = [];
    shape = record { starts = refl; ends = refl; linked = tt; separate = tt };
    carries = refl;
  };
  slots = refl;
  blank =
      let b = blanks blank_entry refl in
      (b, (b, (b, (b, (b, (b, (b, (b, (b, (b, (b, (b, (b, (b, (b, (b, tt))))))))))))))));
}

abbrev operation : Op
operation = (some 5, some 6)

idle_valid : is_valid_request (some idle) (some (codes "org.vim")) ≡ true
unfolding is_valid_request
idle_valid = refl

call_task_method-IsContext_example :
    Returns
      (call_task_method
        (some 1)
        (replied (pos 0) none)
        (some idle)
        (some (codes "org.vim"))
        (some 5)
        (some 6))
      λ r.
        (ctx' : Context) × (r.0 ≡ some ctx')
        × Settled (replied (pos 0) none) operation [] ([] ++ operation ∷ []) idle (ctx', r.1)
call_task_method-IsContext_example =
    call_task_method-IsContext (replied (pos 0) none) idle (some (codes "org.vim")) [] operation
      idle-IsContext 1 idle_valid refl

call_task_method-no_memory_example :
    Returns
      (call_task_method none
        (not_sent (negsuc 0) [])
        (some idle)
        (some (codes "org.vim"))
        (some 5)
        (some 6))
      λ r.
        (ctx' : Context) × (r.0 ≡ some ctx')
        × Settled (not_sent (negsuc 0) []) operation (front_part []) [] idle (ctx', r.1)
call_task_method-no_memory_example =
    call_task_method-no_memory (not_sent (negsuc 0) []) idle (some (codes "org.vim")) [] operation
      idle-IsContext idle_valid

-- The context with one operation waiting.
abbrev queued : Context
queued = record idle {
  pending = record {
    heap = some (record { cb = some 5; userdata = some 6; next = none }) ∷ none ∷ [];
    head = some 0;
    tail = some 0;
  };
}

queued-IsContext : IsContext queued (operation ∷ [])
queued-IsContext = record {
  waiting = record {
    nodes = record { at = 0; op = operation } ∷ [];
    shape = record { starts = refl; ends = refl; linked = (refl, tt); separate = (tt, tt) };
    carries = refl;
  };
  slots = refl;
  blank = idle-IsContext.blank;
}

abbrev unread : Properties
unread = record { state = some (pos 3); percentage = none; message = none; code = none }

abbrev matched : Matches
matched = record { progress = pos 0; slot = some 1; interaction = pos 0; interaction_slot = some 2 }

abbrev task : Str
task = codes "/task/1"

on_task_added-IsContext_example :
    Returns
      (on_task_added plenty matched unread queued (some task))
      λ r. IsContext r.0 [] × Added queued.tasks matched (operation ∷ []) r
on_task_added-IsContext_example =
    on_task_added-IsContext plenty unread queued (operation ∷ []) queued-IsContext matched task

abbrev added : Context
added = on_task_added-IsContext_example.0.0

added-IsContext : IsContext added []
added-IsContext = on_task_added-IsContext_example.2.0

on_task_removed-IsContext_example : Returns (on_task_removed plenty unread added (some task)) λ r.
    IsContext r.0 []
    × ((NoTask added.tasks task × (r ≡ (added, [])))
        ⊎ ((i : ℕ) × (te : TaskEntry) × (read added.tasks i ≡ ok te)
            × (te.active ≡ true)
            × (te.path ≡ some task)
            × (r.0 ≡ record added { tasks = set added.tasks i blank_entry })
            × ((w : Op → ℕ) → running w r.0.tasks + w (te.cb, te.userdata) ≡ running w added.tasks)
            × (r.1 ≡ report te.cb (read_task_properties plenty unread te).progress te.userdata)))
on_task_removed-IsContext_example =
    on_task_removed-IsContext plenty unread added [] added-IsContext task

abbrev busy : TaskEntry
busy = record blank_entry { active = true; path = some task; cb = some 5; userdata = some 6 }

abbrev working : Context
working = record idle { tasks = busy ∷ replicate 15 blank_entry }

working-IsContext : IsContext working []
working-IsContext = record {
  waiting = idle-IsContext.waiting;
  slots = refl;
  blank =
      let b = blanks blank_entry refl in
      ((λ h. cc), (b, (b, (b, (b, (b, (b, (b, (b, (b, (b, (b, (b, (b, (b, (b, tt))))))))))))))));
}

abbrev changes : List Change
changes =
    record { key = codes "State"; sig = some (codes "i"); int32 = pos 4; double = 0; text = none }
    ∷ []

on_properties_changed-IsContext_example :
    Returns (on_properties_changed plenty working 0 (some task_iface) (some changes)) λ r.
      IsContext r.0 []
      × ((w : Op → ℕ) → running w r.0.tasks ≡ running w working.tasks)
      × ((IsOther (some task_iface) (some changes) × (r ≡ (working, [])))
          ⊎ ((cs : List Change) × (some task_iface ≡ some task_iface)
              × (some changes ≡ some cs)
              × (r ≡ (
                record working {
                  tasks = set working.tasks 0 (record busy { progress = changed cs busy.progress });
                },
                report busy.cb (changed cs busy.progress) busy.userdata,
              ))))
on_properties_changed-IsContext_example =
    on_properties_changed-IsContext plenty working [] 0 busy (some task_iface) (some changes)
      plenty-IsPlenty working-IsContext refl refl

abbrev hits : Pointers
hits = some blank_info ∷ none ∷ some blank_info ∷ []

on_search_finished_lem_example :
    Returns
      (on_search_finished
        (results (pos 0) none (some hits) (length hits))
        idle
        (some (codes "job")))
      λ r.
        (NoJob (codes "job") idle.searches × (r ≡ (idle, [])))
        ⊎ ((k : Around (codes "job") idle.searches) × (left_over : Pointers) × (r ≡ (
          record idle { searches = k.before ++ k.after },
          answer_search k.op.cb
              (some (pointers (keep [] hits) ++ left_over))
              (length (keep [] hits))
              (pos 0)
              none
              k.op.userdata,
        )))
on_search_finished_lem_example = on_search_finished_lem idle (codes "job") none hits

abbrev answer : SearchAnswer
answer = started (pos 0) none (some (codes "job"))

search-Searched_example :
    Searched true answer idle
      (some (codes "vim"))
      (some 1)
      none
      (search true answer (some idle) (some (codes "vim")) (some 1) none)
search-Searched_example = search-Searched true answer idle (some (codes "vim")) (some 1) none
