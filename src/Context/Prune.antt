-- ===== src/Context/Prune.antt =====
-- lib/linyaps_context.c: linyaps_prune.
use linyaps_store.Base.{
  ◌≡◌, refl, ap, Option, none, some, List, [], Bool, true, false, if◌then◌else◌, Run, ok, ◌>>=◌,
  Returns, Str, codes, ℤ, is_negative, to_int, minus_einval, Allocator, IsPlenty, Bool-cases, ◌⊎◌,
  inl, inr,
}
use linyaps_store.Context.{Context}
use linyaps_store.Replies.{Container, Item, Read, Result, no_result, parse_common_result}
use linyaps_store.Replies.Read.{fold, All}
use linyaps_store.Replies.Results.{common_after, HasKey, parse_common_result_lem}

-- What the callback is called with.
pub record Completion : Type 0 where
  pub code : ℤ
  pub message : Str

abbrev pub has_bus : Option Context → Bool
has_bus none = false
has_bus (some ctx) = elim ctx.bus [ none ↦ false | some b ↦ true ]

-- `message ? message : ""`
abbrev pub or_empty : Option Str → Str
or_empty none = []
or_empty (some s) = s

abbrev completion_of : (strerror : ℤ → Str) → Read Result → Completion
completion_of strerror (r, s) =
    if is_negative r
    then record { code = r; message = strerror r }
    else record { code = to_int s.code; message = or_empty s.message }

-- The call of the callback, if there is one; `r` is what the call returns, and `strerror` the text of
-- a negated error.
pub prune :
    Allocator
    → (strerror : ℤ → Str) → (r : ℤ) → Container Item
    → (has_callback : Bool) → Option Context
    → Run (Option Completion)
prune a strerror r reply has_callback ctx =
    let calls : Completion → Option Completion = λ c. if has_callback then some c else none in
    if has_bus ctx
    then (if is_negative r
        then ok (calls (completion_of strerror (r, no_result)))
        else (parse_common_result a reply >>= λ read. ok (calls (completion_of strerror read))))
    else ok (calls (record { code = minus_einval; message = codes "invalid context" }))

-- The entries of a reply, as `linyaps_prune` hands them to its callback.
abbrev pub completion_by : List Item → Completion
completion_by items =
    let s : Result = fold common_after items no_result in
    record { code = to_int s.code; message = or_empty s.message }

-- The callback of a call that returned `r`: the error of the call, or else of reading its reply, with
-- the text of that error; or what the reply holds, where both are no errors.
abbrev pub Completes :
    Allocator → (strerror : ℤ → Str) → (r : ℤ) → Container Item → Completion → Type 0
Completes a strerror r reply c =
    ((is_negative r ≡ true) × (c ≡ record { code = r; message = strerror r }))
    ⊎ ((is_negative r ≡ false)
        × (read : Read Result) × (parse_common_result a reply ≡ ok read)
        × (((is_negative read.0 ≡ true) × (c ≡ record { code = read.0; message = strerror read.0 }))
            ⊎ ((is_negative read.0 ≡ false) × (c ≡ completion_by reply.elements))))

-- With memory, `linyaps_prune` ends and faults nowhere if no key of the reply is NULL. It calls its
-- callback once, if it has one, and else calls nothing. Without a bus the callback gets the error
-- EINVAL. Else, if the call fails, it gets the error of the call with its text; if the call succeeds
-- and its reply cannot be read, the error of reading with its text; and else the low 32 bits of the
-- last code of the reply (0 if it has none) with the last message ("" if it has none).
pub prune_lem :
    (a : Allocator) (strerror : ℤ → Str) (r : ℤ) (reply : Container Item) (has_callback : Bool)
    (ctx : Option Context)
    → IsPlenty a
    → All HasKey reply.elements
    → Returns (prune a strerror r reply has_callback ctx) (λ o.
      (c : Completion) × (o ≡ (if has_callback then some c else none))
      × (if has_bus ctx
          then Completes a strerror r reply c
          else (c ≡ record { code = minus_einval; message = codes "invalid context" })))
unfolding prune
prune_lem a strerror r reply has_callback ctx p g = elim (Bool-cases (has_bus ctx)) [
  | inr e ↦
      let c : Completion = record { code = minus_einval; message = codes "invalid context" } in
      ((if has_callback then some c else none), rw e refl, (c, refl, rw e refl))
  | inl e ↦ elim (Bool-cases (is_negative r)) [
    | inl f ↦
        let c : Completion = record { code = r; message = strerror r } in
        ((if has_callback then some c else none), rw (e, f) refl, (c, refl, rw e (inl (f, refl))))
    | inr f ↦
        let (read, t, h) = parse_common_result_lem a reply p g in
        (
          (if has_callback then some (completion_of strerror read) else none),
          rw (e, f, t, ◌>>=◌) refl,
          (completion_of strerror read, refl, rw e (inr (f, read, t, completes read h))),
        )
  ]
]
  where
    completes :
        (read : Read Result)
        → (is_negative read.0 ≡ false → read.1 ≡ fold common_after reply.elements no_result)
        → ((is_negative read.0 ≡ true)
            × (completion_of strerror read ≡ record { code = read.0; message = strerror read.0 }))
          ⊎ ((is_negative read.0 ≡ false)
              × (completion_of strerror read ≡ completion_by reply.elements))
    completes (q, s) h = elim (Bool-cases (is_negative q)) [
      | inl f ↦ inl (f, rw f refl)
      | inr f ↦ inr (
        f,
        rw f (
            ap (λ (s : Result). record { code = to_int s.code; message = or_empty s.message })
              (h f)),
      )
    ]
