-- ===== src/Context/Delivery.antt =====
-- A search is answered once: when it cannot be started, or when its results are there.
use linyaps_store.Base.{
  ℕ, ◌≡◌, refl, ap, ◌∙◌, ◌⊎◌, inl, inr, Option, none, some, List, [], ◌∷◌, ◌++◌, Bool, true, false,
  ok, ◌>>=◌, Returns, length, Option-cases, Bool-cases, Str, codes, ℤ, pos, is_zero, to_int,
  minus_einval, minus_enomem,
}
use linyaps_store.Pending.{Pointer}
use linyaps_store.Filter.Keep.{keep}
use linyaps_store.Filter.Arrays.{Pointers, pointers}
use linyaps_store.Filter.Refine.{filter-keep}
use linyaps_store.Context.{Context, Event, SearchOp, or_default}
use linyaps_store.Context.Calls.{is_valid_request}
use linyaps_store.Context.Searches.{
  answer_search, search_push, is_job, search_take, SearchAnswer, failed, started, job_of,
  finish_search, search, SearchReply, results, deliver, conclude, on_search_finished,
}

abbrev pub NoJob : Str → List SearchOp → Type 0
NoJob id [] = Unit
NoJob id (op ∷ searches) = (is_job op id ≡ false) × NoJob id searches

-- A search of a job, and the list around it.
pub record Around (id : Str) (searches : List SearchOp) : Type 0 where
  pub before : List SearchOp
  pub op : SearchOp
  pub after : List SearchOp
  pub whole : searches ≡ before ++ op ∷ after
  pub of_job : is_job op id ≡ true
  pub is_first : NoJob id before

search_take_lem :
    (searches : List SearchOp) (id : Str)
    → (NoJob id searches × (search_take searches id ≡ (none, searches)))
      ⊎ ((k : Around id searches) × (search_take searches id ≡ (some k.op, k.before ++ k.after)))
unfolding search_take
search_take_lem [] id = inl (tt, refl)
search_take_lem (x ∷ searches) id = elim (Bool-cases (is_job x id)) [
  | inl found ↦ inr (
    record { before = []; op = x; after = searches; whole = refl; of_job = found; is_first = tt },
    rw found,
  )
  | inr other ↦ elim (search_take_lem searches id) [
    | inl (nothing, e) ↦ inl ((other, nothing), rw other (ap (λ t. (t.0, x ∷ t.1)) e))
    | inr (k, e) ↦ inr (
      record {
        before = x ∷ k.before;
        op = k.op;
        after = k.after;
        whole = ap (λ t. x ∷ t) k.whole;
        of_job = k.of_job;
        is_first = (other, k.is_first);
      },
      rw other (ap (λ t. (t.0, x ∷ t.1)) e),
    )
  ]
]

deliver-results :
    (op : SearchOp) (message : Option Str) (list : Pointers)
    → (left_over : Pointers) × (deliver op (results (pos 0) message (some list) (length list))
        ≡ ok (
            answer_search op.cb
              (some (pointers (keep [] list) ++ left_over))
              (length (keep [] list))
              (pos 0)
              message
              op.userdata))
unfolding deliver
deliver-results op message list =
    let (r, run, (left_over, e, _)) = filter-keep list in
    (
      left_over,
      ap (λ x. x >>= λ r. ok (answer_search op.cb r.0 r.1 (pos 0) message op.userdata)) run
          ∙ ap (λ x. ok (answer_search op.cb x.0 x.1 (pos 0) message op.userdata)) e,
    )

finish_with :
    (reply : SearchReply) (ctx : Context) (id : Str) (op : SearchOp) (others : List SearchOp)
    (events : List Event)
    → search_take ctx.searches id ≡ (some op, others)
    → deliver op reply ≡ ok events
    → on_search_finished reply ctx (some id) ≡ ok (record ctx { searches = others }, events)
unfolding on_search_finished conclude
finish_with reply ctx id op others events e run =
    ap (conclude reply ctx) e ∙ ap (λ d. d >>= λ es. ok (record ctx { searches = others }, es)) run

-- When results with the code 0 arrive for a job, the first search of this job leaves the list, the
-- others stay in order, and its callback, if it has one, gets the kept packages of the results in
-- front of the array, with their number. Results for no job of the list change nothing.
pub on_search_finished_lem :
    (ctx : Context) (id : Str) (message : Option Str) (list : Pointers)
    → Returns
        (on_search_finished (results (pos 0) message (some list) (length list)) ctx (some id))
        λ r.
          (NoJob id ctx.searches × (r ≡ (ctx, [])))
          ⊎ ((k : Around id ctx.searches) × (left_over : Pointers) × (r ≡ (
            record ctx { searches = k.before ++ k.after },
            answer_search k.op.cb
                (some (pointers (keep [] list) ++ left_over))
                (length (keep [] list))
                (pos 0)
                message
                k.op.userdata,
          )))
unfolding on_search_finished conclude
on_search_finished_lem ctx id message list =
    let reply = results (pos 0) message (some list) (length list) in
    elim (search_take_lem ctx.searches id) [
      | inl (nothing, e) ↦ ((ctx, []), ap (conclude reply ctx) e, inl (nothing, refl))
      | inr (k, e) ↦
          let (left_over, run) = deliver-results k.op message list in
          (
            (
              record ctx { searches = k.before ++ k.after },
              answer_search k.op.cb (some (pointers (keep [] list) ++ left_over))
                  (length (keep [] list)) (pos 0) message k.op.userdata,
            ),
            finish_with reply ctx id k.op (k.before ++ k.after) _ e run,
            inr (k, left_over, refl),
          )
    ]

-- The text of a failure that the service reports.
abbrev pub told : Option Str → Str
told none = codes "missing search job id"
told (some message) = message

told_lem :
    (message : Option Str) → or_default message (codes "missing search job id") ≡ told message
told_lem none = refl
told_lem (some message) = refl

-- What a search comes to, by the answer of the service.
pub data Searched (memory : Bool) (answer : SearchAnswer) (ctx : Context) (keyword : Option Str)
    (cb userdata : Pointer) (r : Option Context × List Event) : Type 0 where
  invalid :
      (ctx.bus ≡ none) ⊎ (keyword ≡ none) ⊎ (keyword ≡ some [])
      → r ≡ (
        some ctx,
        answer_search cb none 0 minus_einval (some (codes "invalid search request")) userdata,
      )
      → Searched memory answer ctx keyword cb userdata r
  unsent :
      (code : ℤ) (text : Str)
      → answer ≡ failed code text
      → r ≡ (some ctx, answer_search cb none 0 code (some text) userdata)
      → Searched memory answer ctx keyword cb userdata r
  rejected :
      (code : ℤ) (message job : Option Str)
      → answer ≡ started code message job
      → is_zero code ≡ false
      → r ≡ (some ctx, answer_search cb none 0 (to_int code) (some (told message)) userdata)
      → Searched memory answer ctx keyword cb userdata r
  jobless :
      (code : ℤ) (message job : Option Str)
      → answer ≡ started code message job
      → is_zero code ≡ true
      → (job ≡ none) ⊎ (job ≡ some [])
      → r ≡ (some ctx, answer_search cb none 0 minus_einval (some (told message)) userdata)
      → Searched memory answer ctx keyword cb userdata r
  starved :
      (code : ℤ) (message : Option Str) (c : ℕ) (id : Str)
      → answer ≡ started code message (some (c ∷ id))
      → is_zero code ≡ true
      → memory ≡ false
      → r ≡ (some ctx, answer_search cb none 0 minus_enomem (some (codes "out of memory")) userdata)
      → Searched memory answer ctx keyword cb userdata r
  queued :
      (b d : ℕ) (k : Str) (code : ℤ) (message : Option Str) (c : ℕ) (id : Str)
      → ctx.bus ≡ some b
      → keyword ≡ some (d ∷ k)
      → answer ≡ started code message (some (c ∷ id))
      → is_zero code ≡ true
      → memory ≡ true
      → r ≡ (
        some (record ctx {
          searches = record { job_id = some (c ∷ id); cb = cb; userdata = userdata } ∷ ctx.searches;
        }),
        [],
      )
      → Searched memory answer ctx keyword cb userdata r

invalid_cases :
    (ctx : Context) (keyword : Option Str)
    → ((is_valid_request (some ctx) keyword ≡ false)
        × ((ctx.bus ≡ none) ⊎ (keyword ≡ none) ⊎ (keyword ≡ some [])))
      ⊎ ((is_valid_request (some ctx) keyword ≡ true)
          × ((b d : ℕ) × (k : Str) × (ctx.bus ≡ some b) × (keyword ≡ some (d ∷ k))))
unfolding is_valid_request
invalid_cases ctx none = inl (refl, inr (inl refl))
invalid_cases ctx (some []) = inl (refl, inr (inr refl))
invalid_cases ctx (some (d ∷ k)) = elim (Option-cases ctx.bus) [
  | inl e ↦ inl (rw e refl, inl e)
  | inr (b, e) ↦ inr (rw e refl, (b, d, k, e, refl))
]

module _ (memory : Bool) (ctx : Context) (keyword : Option Str) (cb userdata : Pointer) (b d : ℕ)
    (k : Str) (bus : ctx.bus ≡ some b) (word : keyword ≡ some (d ∷ k)) where
  -- A search that is sent, and the context with what it leaves of the list.
  abbrev sent : SearchAnswer → Option Context × List Event
  sent answer =
      let r = finish_search memory answer ctx.searches cb userdata in
      (some (record ctx { searches = r.0 }), r.1)

  with_job :
      (code : ℤ) (message : Option Str) (c : ℕ) (id : Str) (m : Bool)
      → is_zero code ≡ true
      → memory ≡ m
      → Searched memory
          (started code message (some (c ∷ id)))
          ctx
          keyword
          cb
          userdata
          (sent (started code message (some (c ∷ id))))
  unfolding finish_search search_push
  with_job code message c id true zero given =
      queued b d k code message c id bus word refl zero given (rw (finish_search, zero, given) refl)
  with_job code message c id false zero given =
      starved code message c id refl zero given (rw (finish_search, zero, given) refl)

  with_code :
      (code : ℤ) (message job : Option Str)
      → is_zero code ≡ false
      → job_of code job ≡ none
      → Searched memory
          (started code message job)
          ctx
          keyword
          cb
          userdata
          (sent (started code message job))
  unfolding finish_search
  with_code code message job bad e =
      rejected code message job refl bad (rw (finish_search, e, bad, told_lem message) refl)

  answered :
      (code : ℤ) (message job : Option Str)
      → (job ≡ none) ⊎ (job ≡ some [])
      → job_of code job ≡ none
      → Searched memory
          (started code message job)
          ctx
          keyword
          cb
          userdata
          (sent (started code message job))
  unfolding finish_search
  answered code message job none_given e = elim (Bool-cases (is_zero code)) [
    | inl zero ↦
        jobless code message job refl zero none_given
          (rw (finish_search, e, zero, told_lem message) refl)
    | inr bad ↦ with_code code message job bad e
  ]

  sent-Searched :
      (answer : SearchAnswer) → Searched memory answer ctx keyword cb userdata (sent answer)
  unfolding finish_search
  sent-Searched (failed code text) = unsent code text refl refl
  sent-Searched (started code message none) = answered code message none (inl refl) refl
  sent-Searched (started code message (some [])) = answered code message (some []) (inr refl) refl
  sent-Searched (started code message (some (c ∷ id))) = elim (Bool-cases (is_zero code)) [
    | inl zero ↦ with_job code message c id memory zero refl
    | inr bad ↦ with_code code message (some (c ∷ id)) bad (rw bad refl)
  ]

-- A search ends in one of these ways, by what the service answers. Without a bus or a keyword, when
-- the call fails, when the service answers with another code than 0 or without a job, and when there
-- is no memory, the list of searches stays and the callback, if it has one, is called once with no
-- results, with the code and the text of that failure. Else the search is put in front of the list
-- with the job of the answer, and the callback is not called.
pub search-Searched :
    (memory : Bool) (answer : SearchAnswer) (ctx : Context) (keyword : Option Str)
    (cb userdata : Pointer)
    → Searched memory answer ctx keyword cb userdata
        (search memory answer (some ctx) keyword cb userdata)
unfolding search
search-Searched memory answer ctx keyword cb userdata = elim (invalid_cases ctx keyword) [
  | inl (bad, why) ↦ invalid why (rw bad refl)
  | inr (valid, (b, d, k, bus, word)) ↦
      rw valid (sent-Searched memory ctx keyword cb userdata b d k bus word answer)
]
