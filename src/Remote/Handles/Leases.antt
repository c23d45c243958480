-- ===== src/Remote/Handles/Leases.antt =====
-- Who has which handle: no two requests share one, and none is lost.
use mathlib.Core.Path.{subst}
use linyaps_store.Base.{
  ok_inj, sym, ◌∙◌, ℕ, ◌+◌, ◌≤◌, ◌≡◌, refl, List, [], ◌∷◌, false, ok, ◌>>=◌, Returns, arith,
}
use linyaps_store.Remote.Handles.{
  Curl, CurlPool, CurlPoolEntry, count, blank_entries, curl_pool_destroy,
}
use linyaps_store.Remote.Handles.Steps.{
  Request, System, Step, begins, asks, finishes, initial, step, run,
}
use linyaps_store.Remote.Handles.Counts.{stored, busy-le-stored, clean_entries_live}
use linyaps_store.Remote.Handles.Holding.{
  held, of_pool, own, AreRequests, IsSystem, initial-IsSystem, acquire-IsSystem, ask_lem, regroup,
}
use linyaps_store.Remote.Handles.Finish.{finish_lem}

-- Each step ends normally and keeps the system.
step-IsSystem :
    (c : Curl) (s : System) (t : Step) → IsSystem c s → Returns (step c s t) (IsSystem c)
unfolding step
step-IsSystem c s begins v = (_, refl, acquire-IsSystem c s v)
step-IsSystem c s (asks i) (v, told) =
    let (told', n, m) =
      ask_lem c s.pool s.requests i told (λ k. omega (arith, v.owned k, v.once k))
        (λ k. omega (arith, v.lent k)) in
    (_, refl, (regroup v n m, told'))
step-IsSystem c s (finishes i) (v, told) =
    let (u, e, (w, told')) =
      finish_lem c s.pool s.requests i (λ _. 0) (λ _. 0)
        (regroup v (λ k. omega arith) (λ k. omega arith)) told in
    (u, e, (regroup w (λ k. omega arith) (λ k. omega arith), told'))

run-IsSystem :
    (c : Curl) (s : System) (ts : List Step) → IsSystem c s → Returns (run c s ts) (IsSystem c)
unfolding run
run-IsSystem c s [] v = (s, refl, v)
run-IsSystem c s (t ∷ ts) v =
    let (u, e, w) = step-IsSystem c s t v in
    let (z, f, x) = run-IsSystem c u ts w in (z, rw (e, ◌>>=◌) f, x)

held-split : (k : ℕ) (rs : List Request) → held k rs ≡ own k rs + of_pool k rs
held-split k [] = omega arith
held-split k (r ∷ rs) = ground (arith, held-split k rs)

-- Every request has the two JSON headers, and one that has asked knows whether its handle is of
-- the pool; a handle that a request has is live, and no other request has it; a live handle is
-- held by a request or stored in the pool.
abbrev pub IsExclusive : Curl → System → Type 0
IsExclusive c s =
    AreRequests c s.requests
    × ((k : ℕ) → held k s.requests ≤ count k s.pool.live)
    × ((k : ℕ) → held k s.requests ≤ 1)
    × ((k : ℕ) → count k s.pool.live ≤ held k s.requests + stored k s.pool.entries)

-- In whatever order the requests of all threads take a handle with `curl_pool_acquire`, ask
-- `curl_pool_contains` and give the handle back with `curl_pool_release`, no handle is freed that
-- is not live, and afterwards: no handle is held by two requests, each that is held is live, each
-- live one is held by a request or stored in the pool, each request has the two JSON headers, and
-- each that has asked was told whether its handle came from the pool.
pub run-IsExclusive : (c : Curl) (ts : List Step) → Returns (run c initial ts) (IsExclusive c)
run-IsExclusive c ts =
    let (s, e, (v, told)) = run-IsSystem c initial ts (initial-IsSystem c) in
    (
      s,
      e,
      (
        told,
        λ k.
            omega (
              arith,
              held-split k s.requests,
              v.owned k,
              v.lent k,
              busy-le-stored k s.pool.entries,
            ),
        λ k. omega (
          arith,
          held-split k s.requests,
          v.owned k,
          v.lent k,
          v.once k,
          busy-le-stored k s.pool.entries,
        ),
        λ k. omega (arith, held-split k s.requests, v.owned k),
      ),
    )

none_left : (live : List ℕ) → ((k : ℕ) → count k live ≡ 0) → live ≡ []
none_left [] h = refl
none_left (x ∷ live) h = absurd (ground (arith, h x))

stored-blank : (k : ℕ) (es : List CurlPoolEntry) → stored k (blank_entries es) ≡ 0
unfolding blank_entries
stored-blank k [] = refl
stored-blank k (e ∷ es) = omega (arith, stored-blank k es)

-- After any history at whose end no request is under way, `curl_pool_destroy` ends normally: it
-- frees each live handle once and no other, no entry keeps a handle, and the pool is set up anew
-- if it is used again.
pub run-destroy :
    (c : Curl) (ts : List Step) (p : CurlPool)
    → run c initial ts ≡ ok (record { pool = p; requests = [] })
    → Returns
        (curl_pool_destroy p)
        λ q. (q.live ≡ []) × ((k : ℕ) → stored k q.entries ≡ 0) × (q.initialized ≡ false)
unfolding curl_pool_destroy
run-destroy c ts p end =
    let (s, e, w) = run-IsSystem c initial ts (initial-IsSystem c) in
    let at_end : IsSystem c (record { pool = p; requests = [] }) =
      subst (IsSystem c) (ok_inj (sym e ∙ end)) w in
    let v = at_end.0 in
    let (live, f, less) = clean_entries_live p.entries p.live (λ k. omega (arith, v.owned k)) in
    (
      record { entries = blank_entries p.entries; initialized = false; live = live },
      rw (f, ◌>>=◌) refl,
      (none_left live (λ k. omega (arith, less k, v.owned k)), λ k. stored-blank k p.entries, refl),
    )
