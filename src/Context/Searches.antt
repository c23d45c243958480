-- ===== src/Context/Searches.antt =====
-- The searches: `linyaps_search` (lib/linyaps_context.c) and `on_search_finished` with its list of
-- searches under way (lib/linyaps_task.c).
use linyaps_store.Base.{
  ℕ, Option, none, some, List, [], ◌∷◌, Bool, true, false, Run, ok, ◌>>=◌, if◌then◌else◌, Str,
  codes, same, ℤ, is_zero, to_int, minus_einval, minus_enomem,
}
use linyaps_store.Types.{PackageInfo}
use linyaps_store.Pending.{Pointer}
use linyaps_store.Context.{Context, Event, on_search, SearchOp, or_default}
use linyaps_store.Context.Calls.{is_valid_request}
use linyaps_store.Filter.{filter_store_search_results}

-- `if (cb) cb(items, count, code, message, userdata)`
abbrev pub answer_search :
    Pointer → Option (List (Option PackageInfo)) → ℕ → ℤ → Option Str → Pointer → List Event
answer_search none items count code message userdata = []
answer_search (some f) items count code message userdata =
    on_search f items count code message userdata ∷ []

-- `search_push`; the first argument is whether there is memory for the node and for the copy.
unfoldable pub search_push :
    Bool → List SearchOp → Str → Pointer → Pointer → List SearchOp × List Event
search_push false searches job_id cb userdata =
    (searches, answer_search cb none 0 minus_enomem (some (codes "out of memory")) userdata)
search_push true searches job_id cb userdata =
    (record { job_id = some job_id; cb = cb; userdata = userdata } ∷ searches, [])

-- `it->job_id && strcmp(it->job_id, job_id) == 0`
abbrev pub is_job : SearchOp → Str → Bool
is_job op id = elim op.job_id [ none ↦ false | some j ↦ same j id ]

-- `search_take`: the first search of this job, unlinked, and the others.
unfoldable pub search_take : List SearchOp → Str → Option SearchOp × List SearchOp
search_take [] id = (none, [])
search_take (op ∷ searches) id =
    if is_job op id
    then (some op, searches)
    else (let r = search_take searches id in (r.0, op ∷ r.1))

-- What the call of `Search` answers: it fails (in building, sending or parsing) with a result and a
-- text, or gives a code, a message and a job.
pub data SearchAnswer : Type 0 where
  failed : ℤ → Str → SearchAnswer
  started : ℤ → Option Str → Option Str → SearchAnswer

-- `code != 0 || !job_id || !*job_id`
abbrev pub job_of : ℤ → Option Str → Option Str
job_of code none = none
job_of code (some []) = none
job_of code (some (c ∷ id)) = if is_zero code then some (c ∷ id) else none

-- The part of `linyaps_search` after the call.
unfoldable pub finish_search :
    Bool → SearchAnswer → List SearchOp → Pointer → Pointer → List SearchOp × List Event
finish_search memory (failed r text) searches cb userdata =
    (searches, answer_search cb none 0 r (some text) userdata)
finish_search memory (started code message job) searches cb userdata = elim (job_of code job) [
  | none ↦ (
    searches,
    answer_search cb none 0 (if is_zero code then minus_einval else to_int code)
        (some (or_default message (codes "missing search job id"))) userdata,
  )
  | some id ↦ search_push memory searches id cb userdata
]

-- `linyaps_search`
unfoldable pub search :
    Bool
    → SearchAnswer
    → Option Context
    → Option Str
    → Pointer
    → Pointer
    → Option Context × List Event
unfolding is_valid_request finish_search
search memory answer ctx keyword cb userdata =
    let invalid : Option Context × List Event = (
      ctx,
      answer_search cb none 0 minus_einval (some (codes "invalid search request")) userdata,
    ) in
    elim ctx [
      | none ↦ invalid
      | some c ↦
          if is_valid_request (some c) keyword
          then (let r = finish_search memory answer c.searches cb userdata in
              (some (record c { searches = r.0 }), r.1))
          else invalid
    ]

-- What `parse_search_reply` gives: a negative result with its text, or the code, the message and
-- the array with its count.
pub data SearchReply : Type 0 where
  unreadable : ℤ → Str → SearchReply
  results : ℤ → Option Str → Option (List (Option PackageInfo)) → ℕ → SearchReply

-- The callback that `on_search_finished` makes for the search `op`.
unfoldable pub deliver : SearchOp → SearchReply → Run (List Event)
deliver op (unreadable r text) = ok (answer_search op.cb none 0 r (some text) op.userdata)
deliver op (results code message items count) =
    if is_zero code
    then (filter_store_search_results items count >>= λ r.
        ok (answer_search op.cb r.0 r.1 (to_int code) message op.userdata))
    else ok (answer_search op.cb none 0 (to_int code) message op.userdata)

-- The part of `on_search_finished` after the search is taken off the list, if it was there.
unfoldable pub conclude :
    SearchReply → Context → Option SearchOp × List SearchOp → Run (Context × List Event)
unfolding deliver
conclude reply ctx t = elim t.0 [
  | none ↦ ok (ctx, [])
  | some op ↦ deliver op reply >>= λ events. ok (record ctx { searches = t.1 }, events)
]

-- `on_search_finished`
unfoldable pub on_search_finished : SearchReply → Context → Option Str → Run (Context × List Event)
unfolding conclude
on_search_finished reply ctx none = ok (ctx, [])
on_search_finished reply ctx (some id) = conclude reply ctx (search_take ctx.searches id)
