-- ===== src/Remote/Http/Replies.antt =====
-- What http_post_json returns, and the pool after it.
use mathlib.Core.List.{append_assoc, append-nil}
use mathlib.Core.Path.{subst}
use linyaps_store.Base.{
  ok_inj, bind-eq-ok, ℕ, ◌+◌, ◌^◌, ◌≤◌, ◌≡◌, refl, sym, Option, none, some, List, [], ◌∷◌, ◌++◌,
  Bool, true, false, ◌&&◌, ◌>>=◌, Returns, ◌==◌, length, length-append, Bool-cases, ◌⊎◌, inl, inr,
  arith,
}
use linyaps_store.Remote.Handles.{
  Curl, CurlPool, Acquired, no_handle, pooled, temporary, curl_pool_acquire, curl_pool_contains,
  curl_pool_release,
}
use linyaps_store.Remote.Handles.Steps.{Request, System, admit, give_back}
use linyaps_store.Remote.Handles.Holding.{
  acquire-IsSystem, IsSystem, contains-of_pool, own, of_pool, regroup,
}
use linyaps_store.Remote.Handles.Finish.{give_back_lem}
use linyaps_store.Remote.Buffer.{CurlBuf, empty_buf, Realloc}
use linyaps_store.Remote.Buffer.Appends.{HasBytes, curl_write_cb_lem}
use linyaps_store.Remote.Http.{
  Transfer, perform, pointer, response, post_on, post_with, http_post_json,
}

abbrev pub concat : List (List ℕ) → List ℕ
concat [] = []
concat (chunk ∷ chunks) = chunk ++ concat chunks

-- Memory is refused for some size.
abbrev pub Refuses : Realloc → Type 0
Refuses m = (size : ℕ) × (m.gives size ≡ false)

no_bytes :
    (cb : CurlBuf) (bytes chunk : List ℕ)
    → length chunk ≡ 0
    → HasBytes cb bytes
    → HasBytes cb (bytes ++ chunk)
no_bytes cb bytes [] e h = rw (append-nil bytes) h
no_bytes cb bytes (x ∷ chunk) e h = absurd (omega arith)

perform_lem :
    (m : Realloc) (chunks : List (List ℕ)) (cb : CurlBuf) (bytes : List ℕ)
    → HasBytes cb bytes
    → length bytes + length (concat chunks) + 1 ≤ 2 ^ 63
    → Returns
        (perform m chunks cb)
        λ r. ((r.0 ≡ true) × HasBytes r.1 (bytes ++ concat chunks)) ⊎ ((r.0 ≡ false) × Refuses m)
unfolding perform
perform_lem m [] cb bytes h n = ((true, cb), refl, inl (refl, rw (append-nil bytes) h))
perform_lem m (chunk ∷ chunks) cb bytes h n =
    let (w, e, v) =
      curl_write_cb_lem m cb bytes chunk h
        (omega (arith, length-append {0} chunk (concat chunks))) in
    let after : HasBytes w.1 (bytes ++ chunk)
        → Returns (perform m chunks w.1) λ r.
          ((r.0 ≡ true) × HasBytes r.1 (bytes ++ (chunk ++ concat chunks)))
          ⊎ ((r.0 ≡ false) × Refuses m) =
      λ g. rw (← append_assoc bytes chunk (concat chunks)) (
        perform_lem m chunks w.1 (bytes ++ chunk) g (
          omega (arith, length-append {0} chunk (concat chunks), length-append {0} bytes chunk))) in
    rw (e, ◌>>=◌)
      (elim (Bool-cases (w.0 == length chunk)) [
        | inl same ↦ elim v [
          | inl (_, g) ↦ rw same (after g)
          | inr (zero_len, unchanged, r) ↦
              rw same (after (rw unchanged (no_bytes cb bytes chunk (ground arith) h)))
        ]
        | inr short ↦ elim v [
          | inl (all, _) ↦ absurd (ground arith)
          | inr (_, _, r) ↦ ((false, w.1), rw short refl, inr (refl, r))
        ]
      ])

empty-HasBytes : HasBytes empty_buf []
empty-HasBytes = record { cap_length = refl; len_length = refl; cells = inl (refl, refl) }

-- The bytes of the chunks in order, then a NUL; or NULL, for a reason.
abbrev pub IsReply : Realloc → Transfer → Option (List ℕ) → Type 0
IsReply m t r =
    ((t.completes ≡ true) × ((rest : List ℕ) × (r ≡ some (concat t.chunks ++ 0 ∷ rest))))
    ⊎ ((r ≡ none) × ((t.completes ≡ false) ⊎ ((concat t.chunks ≡ []) ⊎ Refuses m)))

pointer_lem :
    (cb : CurlBuf) (bytes : List ℕ)
    → HasBytes cb bytes
    → ((rest : List ℕ) × (pointer cb.buf ≡ some (bytes ++ 0 ∷ rest)))
      ⊎ ((pointer cb.buf ≡ none) × (bytes ≡ []))
unfolding pointer
pointer_lem cb bytes h = elim h.cells [
  | inl (e, f) ↦ inr (rw e refl, f)
  | inr (rest, e) ↦ inl (rest, rw e (at_least bytes rest))
]
  where
    at_least : (bytes rest : List ℕ) → pointer (bytes ++ 0 ∷ rest) ≡ some (bytes ++ 0 ∷ rest)
    at_least [] rest = refl
    at_least (x ∷ bytes) rest = refl

response_lem :
    (m : Realloc) (t : Transfer) (done : Bool) (cb : CurlBuf)
    → ((done ≡ true) × HasBytes cb (concat t.chunks)) ⊎ ((done ≡ false) × Refuses m)
    → IsReply m t (response (done && t.completes) cb)
unfolding response
response_lem m t done cb h = elim h [
  | inr (e, r) ↦ rw e (inr (refl, inr (inr r)))
  | inl (e, v) ↦ elim (Bool-cases t.completes) [
    | inr f ↦ rw (e, f) (inr (refl, inl refl))
    | inl f ↦ elim (pointer_lem cb (concat t.chunks) v) [
      | inl (rest, g) ↦ rw (e, f) (inl (refl, (rest, g)))
      | inr (g, none_sent) ↦ rw (e, f) (inr (g, inr (inl none_sent)))
    ]
  ]
]

-- A request that has a handle gives it back.
post_on_lem :
    (c : Curl) (m : Realloc) (t : Transfer) (p : CurlPool) (r : Request) (rs : List Request)
    → IsSystem c (record { pool = p; requests = r ∷ rs })
    → length (concat t.chunks) + 1 ≤ 2 ^ 63
    → Returns
        (post_on m t r.handle p)
        λ d. IsSystem c (record { pool = d.1; requests = rs }) × IsReply m t d.0
unfolding post_on give_back
post_on_lem c m t p r rs (v, told) n =
    let here =
      contains-of_pool r.handle p r.of_pool (own r.handle rs) (of_pool r.handle rs)
        (ground (arith, v.owned r.handle, v.once r.handle)) (ground (arith, v.lent r.handle)) in
    let (done, e, w) = perform_lem m t.chunks empty_buf [] empty-HasBytes (omega arith) in
    let (s, f, (x, told')) =
      give_back_lem c p r rs (λ _. 0) (λ _. 0) (some (curl_pool_contains r.handle p))
        (regroup v (λ k. omega arith) (λ k. omega arith)) told here in
    let (q, g, same) =
      bind-eq-ok (curl_pool_release r.handle (curl_pool_contains r.handle p) p) _ f in
    (
      (response (done.0 && t.completes) done.1, q),
      rw (e, ◌>>=◌, g, ◌>>=◌) refl,
      (
        subst (IsSystem c) (sym (ok_inj same))
            (regroup x (λ k. omega arith) (λ k. omega arith), told'),
        response_lem m t done.0 done.1 w,
      ),
    )

post_with_lem :
    (c : Curl) (m : Realloc) (t : Transfer) (rs : List Request) (a : Acquired × CurlPool)
    → IsSystem c (admit rs a)
    → length (concat t.chunks) + 1 ≤ 2 ^ 63
    → Returns (post_with m t a) λ d.
      IsSystem c (record { pool = d.1; requests = rs })
      × ((a.0 ≡ no_handle × (d.0 ≡ none)) ⊎ IsReply m t d.0)
unfolding post_with admit
post_with_lem c m t rs (no_handle, p) v n = ((none, p), refl, (v, inl (refl, refl)))
post_with_lem c m t rs (pooled h headers, p) v n =
    let r : Request = record { handle = h; headers = headers; of_pool = true; is_pooled = none } in
    let (d, e, (w, reply)) = post_on_lem c m t p r rs v n in (d, e, (w, inr reply))
post_with_lem c m t rs (temporary h headers, p) v n =
    let r : Request = record { handle = h; headers = headers; of_pool = false; is_pooled = none } in
    let (d, e, (w, reply)) = post_on_lem c m t p r rs v n in (d, e, (w, inr reply))

-- `http_post_json`, called while other requests are under way, ends normally and leaves the pool to
-- them as the pool was; it frees nothing that is not live. Unless the pool gives no handle, in which
-- case it returns NULL, it returns the bytes of all chunks in order with a NUL behind them if the
-- transfer completes, memory is given and there are any bytes, and NULL only where one of these
-- three fails. The response has less than 2 ^ 63 bytes.
pub http_post_json_lem :
    (c : Curl) (m : Realloc) (t : Transfer) (s : System)
    → IsSystem c s
    → length (concat t.chunks) + 1 ≤ 2 ^ 63
    → Returns (http_post_json c m t s.pool) λ d.
      IsSystem c (record { pool = d.1; requests = s.requests })
      × (((curl_pool_acquire c s.pool).0 ≡ no_handle × (d.0 ≡ none)) ⊎ IsReply m t d.0)
unfolding http_post_json
http_post_json_lem c m t s v n =
    post_with_lem c m t s.requests (curl_pool_acquire c s.pool) (acquire-IsSystem c s v) n
