-- ===== src/Context/Calls.antt =====
-- lib/linyaps_context.c: the requests that start a task. Building the message and sending it is
-- sd-bus; what comes of it is an argument.
use linyaps_store.Base.{
  ℕ, Option, none, some, List, [], ◌∷◌, Bool, true, false, Run, ok, ◌>>=◌, if◌then◌else◌, Str,
  codes, ℤ, is_zero, to_int, minus_einval,
}
use linyaps_store.Pending.{Pointer, pending_push, pending_pop_tail}
use linyaps_store.Context.{Context, Event, notify_failed}

-- What the D-Bus call answers.
pub data Answer : Type 0 where
  -- the message could not be built or sent: the negative result and the text for it
  not_sent : ℤ → Str → Answer
  -- the reply could not be parsed: the negative result and the text for it
  not_parsed : ℤ → Str → Answer
  -- the code and the message of the reply
  replied : ℤ → Option Str → Answer

-- Whether the pointers and the id let the request go on.
unfoldable pub is_valid_request : Option Context → Option Str → Bool
is_valid_request none app_id = false
is_valid_request (some ctx) none = false
is_valid_request (some ctx) (some []) = false
is_valid_request (some ctx) (some (c ∷ id)) = elim ctx.bus [ none ↦ false | some b ↦ true ]

abbrev take_back : Context → Pointer → Pointer → Option Str → ℤ → Run (Context × List Event)
take_back ctx cb userdata message code = do
  p ← pending_pop_tail ctx.pending
  ok (record ctx { pending = p }, notify_failed cb userdata message code)

-- What follows the call, by its answer.
unfoldable pub finish_call : Context → Answer → Pointer → Pointer → Run (Context × List Event)
unfolding take_back
finish_call ctx (not_sent r text) cb userdata = take_back ctx cb userdata (some text) r
finish_call ctx (not_parsed r text) cb userdata = take_back ctx cb userdata (some text) r
finish_call ctx (replied code message) cb userdata =
    if is_zero code then ok (ctx, []) else take_back ctx cb userdata message (to_int code)

-- The common course of the requests; `memory` is what `calloc` returns for the pending operation.
unfoldable pub request :
    Option ℕ → Answer → Context → Pointer → Pointer → Run (Context × List Event)
unfolding finish_call
request memory answer ctx cb userdata = do
  p ← pending_push ctx.pending memory cb userdata
  finish_call (record ctx { pending = p }) answer cb userdata

-- `call_task_method`, which `linyaps_install` and `linyaps_uninstall` are: the context afterwards,
-- if there is one, and the callbacks made.
unfoldable pub call_task_method :
    Option ℕ
    → Answer
    → Option Context
    → Option Str
    → Pointer
    → Pointer
    → Run (Option Context × List Event)
unfolding request
call_task_method memory answer ctx app_id cb userdata =
    let invalid =
      ok (ctx, notify_failed cb userdata (some (codes "invalid package request")) minus_einval) in
    elim ctx [
      | none ↦ invalid
      | some c ↦
          if is_valid_request (some c) app_id
          then (request memory answer c cb userdata >>= λ r. ok (some r.0, r.1))
          else invalid
    ]

-- `linyaps_update`, whose message alone differs.
unfoldable pub update :
    Option ℕ
    → Answer
    → Option Context
    → Option Str
    → Pointer
    → Pointer
    → Run (Option Context × List Event)
unfolding call_task_method
update memory answer ctx app_id cb userdata = call_task_method memory answer ctx app_id cb userdata
