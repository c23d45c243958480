-- ===== src/Context/Requests.antt =====
-- A request is queued if the service accepts it, and else told of its failure, with the queue as it
-- was before.
use linyaps_store.Base.{
  ℕ, ◌≡◌, refl, ap, Option, none, some, List, [], ◌∷◌, ◌++◌, Bool, true, false, ok, Returns,
  Bool-cases, inl, inr, if◌then◌else◌, Str, ℤ, is_zero, to_int,
}
use mathlib.Core.Path.{subst}
use linyaps_store.Pending.{Pointer, Pending, pending_push, pending_pop_tail}
use linyaps_store.Pending.Queue.{Op, Holds}
use linyaps_store.Pending.Ends.{pending_push-Holds}
use linyaps_store.Pending.Last.{front_part, pending_pop_tail-Holds}
use linyaps_store.Context.{Context, Event, notify_failed}
use linyaps_store.Context.Calls.{
  Answer, not_sent, not_parsed, replied, is_valid_request, finish_call, request, call_task_method,
}
use linyaps_store.Context.Invariant.{IsContext, IsFresh}

-- Whether the service has accepted the request.
unfoldable pub accepted : Answer → Bool
accepted (not_sent r text) = false
accepted (not_parsed r text) = false
accepted (replied code message) = is_zero code

-- What the callback of a request that is not accepted is told.
unfoldable pub failure : Answer → Option Str × ℤ
failure (not_sent r text) = (some text, r)
failure (not_parsed r text) = (some text, r)
failure (replied code message) = (message, to_int code)

front_part-append : (q : List Op) (o : Op) → front_part (q ++ o ∷ []) ≡ q
front_part-append [] o = refl
front_part-append (x ∷ []) o = refl
front_part-append (x ∷ y ∷ q) o = ap (λ t. x ∷ t) (front_part-append (y ∷ q) o)

module _ (ctx : Context) (answer : Answer) (cb userdata : Pointer) where
  finish_accepted : accepted answer ≡ true → finish_call ctx answer cb userdata ≡ ok (ctx, [])
  unfolding accepted finish_call
  finish_accepted e = by_answer answer e
    where
      by_answer : (x : Answer) → accepted x ≡ true → finish_call ctx x cb userdata ≡ ok (ctx, [])
      by_answer (not_sent r text) h = cc
      by_answer (not_parsed r text) h = cc
      by_answer (replied code message) h = rw h

  finish_refused :
      (p : Pending)
      → accepted answer ≡ false
      → pending_pop_tail ctx.pending ≡ ok p
      → finish_call ctx answer cb userdata
        ≡ ok (
          record ctx { pending = p },
          notify_failed cb userdata (failure answer).0 (failure answer).1,
        )
  unfolding accepted finish_call failure
  finish_refused p e run = by_answer answer e
    where
      by_answer :
          (x : Answer)
          → accepted x ≡ false
          → finish_call ctx x cb userdata
            ≡ ok (record ctx { pending = p }, notify_failed cb userdata (failure x).0 (failure x).1)
      by_answer (not_sent r text) h = rw run
      by_answer (not_parsed r text) h = rw run
      by_answer (replied code message) h = rw (h, run)

-- The queue and the callbacks that a request leaves; `after` is the queue with the request.
abbrev pub Settled : Answer → Op → List Op → List Op → Context → Context × List Event → Type 0
Settled answer o before after ctx r =
    IsContext r.0 (if accepted answer then after else before)
    × (r.0.tasks ≡ ctx.tasks)
    × (r.1 ≡ (
        if accepted answer
        then []
        else notify_failed o.0 o.1 (failure answer).0 (failure answer).1))

settled :
    (ctx : Context) (p : Pending) (answer : Answer) (o : Op) (q after : List Op)
    → IsContext ctx q
    → Holds p after
    → Returns
        (finish_call (record ctx { pending = p }) answer o.0 o.1)
        (Settled answer o (front_part after) after ctx)
settled ctx p answer o q after h held = elim (Bool-cases (accepted answer)) [
  | inl accepts ↦ (
    (record ctx { pending = p }, []),
    finish_accepted (record ctx { pending = p }) answer o.0 o.1 accepts,
    rw accepts (record { waiting = held; slots = h.slots; blank = h.blank }, refl, refl),
  )
  | inr refuses ↦
      let (p', run, held') = pending_pop_tail-Holds p after held in
      (
        (record ctx { pending = p' }, notify_failed o.0 o.1 (failure answer).0 (failure answer).1),
        finish_refused (record ctx { pending = p }) answer o.0 o.1 p' refuses run,
        rw refuses (record { waiting = held'; slots = h.slots; blank = h.blank }, refl, refl),
      )
]

-- The queue once the request is pushed: none is if there is no memory for it.
unfoldable pub joined : Option ℕ → List Op → Op → List Op
joined none q o = q
joined (some a) q o = q ++ o ∷ []

pushed :
    (memory : Option ℕ) (s : Pending) (q : List Op) (o : Op)
    → IsFresh s.heap memory
    → Holds s q
    → Returns (pending_push s memory o.0 o.1) λ r. Holds r (joined memory q o)
unfolding pending_push joined
pushed none s q o fresh h = (s, refl, h)
pushed (some a) s q o fresh h = pending_push-Holds s a o.0 o.1 fresh q h

requested :
    (memory : Option ℕ) (answer : Answer) (ctx : Context) (q : List Op) (o : Op)
    → IsFresh ctx.pending.heap memory
    → IsContext ctx q
    → Returns
        (request memory answer ctx o.0 o.1)
        (Settled answer o (front_part (joined memory q o)) (joined memory q o) ctx)
unfolding request
requested memory answer ctx q o fresh h =
    let (p, run, held) = pushed memory ctx.pending q o fresh h.waiting in
    let (r, run', done) = settled ctx p answer o q (joined memory q o) h held in
    (r, rw run run', done)

call_valid :
    (memory : Option ℕ) (answer : Answer) (ctx : Context) (app_id : Option Str) (o : Op)
    (r : Context × List Event)
    → is_valid_request (some ctx) app_id ≡ true
    → request memory answer ctx o.0 o.1 ≡ ok r
    → call_task_method memory answer (some ctx) app_id o.0 o.1 ≡ ok (some r.0, r.1)
unfolding call_task_method
call_valid memory answer ctx app_id o r valid run = rw (valid, run)

module _ (answer : Answer) (ctx : Context) (app_id : Option Str) (q : List Op) (o : Op)
    (h : IsContext ctx q) where
  -- With memory, a valid request to install or uninstall a package, in a context that keeps the
  -- invariant, ends, faults nowhere and keeps the invariant and the tasks. If the service accepts
  -- it, it stands at the end of the queue and no callback is made; else the queue is as before and
  -- its callback alone is told of the failure.
  pub call_task_method-IsContext :
      (a : ℕ)
      → is_valid_request (some ctx) app_id ≡ true
      → IsFresh ctx.pending.heap (some a)
      → Returns (call_task_method (some a) answer (some ctx) app_id o.0 o.1) λ r.
        (ctx' : Context) × (r.0 ≡ some ctx') × Settled answer o q (q ++ o ∷ []) ctx (ctx', r.1)
  unfolding joined
  call_task_method-IsContext a valid fresh =
      let (r, run, done) = requested (some a) answer ctx q o fresh h in
      (
        (some r.0, r.1),
        call_valid (some a) answer ctx app_id o r valid run,
        (
          r.0,
          refl,
          subst (λ before. Settled answer o before (q ++ o ∷ []) ctx r) (front_part-append q o)
              done,
        ),
      )

  -- With no memory for the pending operation, a valid request, in a context that keeps the
  -- invariant, is not in the queue if the service accepts it; if the service refuses it, it takes
  -- the last operation of the queue, which is another one, off it, and no callback but its own is
  -- made.
  pub call_task_method-no_memory :
      is_valid_request (some ctx) app_id ≡ true
      → Returns (call_task_method none answer (some ctx) app_id o.0 o.1) λ r.
        (ctx' : Context) × (r.0 ≡ some ctx') × Settled answer o (front_part q) q ctx (ctx', r.1)
  unfolding joined
  call_task_method-no_memory valid =
      let (r, run, done) = requested none answer ctx q o tt h in
      ((some r.0, r.1), call_valid none answer ctx app_id o r valid run, (r.0, refl, done))
