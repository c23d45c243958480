-- ===== src/Remote/Handles/Holding.antt =====
-- The invariant of the pool and the requests, which taking a handle and asking about one keep.
use linyaps_store.Base.{
  ℕ, zero, suc, ◌+◌, ◌≤◌, ◌≡◌, refl, Option, none, some, List, [], ◌∷◌, Bool, true, false,
  if◌then◌else◌, replicate, arith,
}
use linyaps_store.Remote.Handles.{
  Curl, CurlPool, CurlPoolEntry, Scan, full, failed, taken, count, json_headers, scan,
  curl_pool_size, blank_entry, curl_pool_init, conclude_scan, curl_pool_acquire, curl_pool_contains,
  make_temporary,
}
use linyaps_store.Remote.Handles.Steps.{Request, System, initial, admit, ask}
use linyaps_store.Remote.Handles.Counts.{
  one, stored, busy, AreEntries, busy-le-stored, contains_in-stored,
}
use linyaps_store.Remote.Handles.Scans.{Scanned, scan_lem}

-- How many requests have the handle, and how many of them from the pool, or for themselves.
abbrev pub held : ℕ → List Request → ℕ
held k [] = 0
held k (r ∷ rs) = one k (some r.handle) + held k rs

abbrev pub of_pool : ℕ → List Request → ℕ
of_pool k [] = 0
of_pool k (r ∷ rs) = (if r.of_pool then one k (some r.handle) else 0) + of_pool k rs

abbrev pub own : ℕ → List Request → ℕ
own k [] = 0
own k (r ∷ rs) = (if r.of_pool then 0 else one k (some r.handle)) + own k rs

-- A request has the headers, and was told the truth about its handle.
abbrev pub IsTold : Bool → Option Bool → Type 0
IsTold of_pool none = Unit
IsTold of_pool (some said) = said ≡ of_pool

abbrev pub AreRequests : Curl → List Request → Type 0
AreRequests c [] = Unit
AreRequests c (r ∷ rs) =
    (r.headers ≡ json_headers c) × IsTold r.of_pool r.is_pooled × AreRequests c rs

-- The pool, when `o k` requests have the handle `k` for themselves and `q k` from the pool.
pub record Holds (c : Curl) (p : CurlPool) (o q : ℕ → ℕ) : Type 0 where
  pub entries : AreEntries c p.entries
  pub owned : (k : ℕ) → stored k p.entries + o k ≡ count k p.live
  pub once : (k : ℕ) → count k p.live ≤ 1
  pub lent : (k : ℕ) → busy k p.entries ≡ q k
  pub started : p.initialized ≡ false → p.entries ≡ replicate curl_pool_size blank_entry

abbrev pub IsSystem : Curl → System → Type 0
IsSystem c s =
    Holds c s.pool (λ k. own k s.requests) (λ k. of_pool k s.requests) × AreRequests c s.requests

pub initial-IsSystem : (c : Curl) → IsSystem c initial
initial-IsSystem c = (
  record {
    entries = ground arith;
    owned = λ k. omega arith;
    once = λ k. omega arith;
    lent = λ k. omega arith;
    started = λ _. refl;
  },
  tt,
)

init-Holds :
    (c : Curl) (es : List CurlPoolEntry) (initialized : Bool) (live : List ℕ) (o q : ℕ → ℕ)
    → let p : CurlPool = record { entries = es; initialized = initialized; live = live } in
      Holds c p o q → Holds c (curl_pool_init p) o q × ((curl_pool_init p).initialized ≡ true)
unfolding curl_pool_init
init-Holds c es true live o q h = (h, refl)
init-Holds c es false live o q h =
    let blank = h.started refl in
    (
      record {
        entries = ground arith;
        owned = λ k. ground (arith, blank, h.owned k);
        once = h.once;
        lent = λ k. ground (arith, blank, h.lent k);
        started = λ t. cc;
      },
      refl,
    )

make_temporary-IsSystem :
    (c : Curl) (p : CurlPool) (rs : List Request) (new : Option ℕ)
    → IsSystem c (record { pool = p; requests = rs })
    → p.initialized ≡ true
    → ((h : ℕ) → new ≡ some h → count h p.live ≡ 0)
    → IsSystem c (admit rs (make_temporary c p new))
unfolding make_temporary admit
make_temporary-IsSystem c p rs none v i fresh = v
make_temporary-IsSystem c p rs (some h) (v, told) i fresh = (
  record {
    entries = v.entries;
    owned = λ k. ground (arith, v.owned k);
    once = λ k. ground (arith, v.once k, fresh h refl);
    lent = λ k. omega (arith, v.lent k);
    started = λ t. cc;
  },
  (refl, tt, told),
)

conclude-IsSystem :
    (c : Curl) (p : CurlPool) (rs : List Request) (found : Scan)
    → IsSystem c (record { pool = p; requests = rs })
    → p.initialized ≡ true
    → Scanned c p.live p.entries found
    → IsSystem c (admit rs (conclude_scan c p found))
unfolding conclude_scan admit
conclude-IsSystem c p rs failed v i s = v
conclude-IsSystem c p rs full v i s =
    make_temporary-IsSystem c p rs (c.easy_init p.live) v i (c.fresh p.live)
conclude-IsSystem c p rs (taken k headers more after) (v, told) i (e, a, b, n, once) = (
  record {
    entries = a;
    owned = λ j. omega (arith, n j, v.owned j);
    once = once;
    lent = λ j. omega (arith, b j, v.lent j);
    started = λ t. cc;
  },
  (e, tt, told),
)

pub acquire-IsSystem :
    (c : Curl) (s : System)
    → IsSystem c s
    → IsSystem c (admit s.requests (curl_pool_acquire c s.pool))
unfolding curl_pool_acquire
acquire-IsSystem c s (v, told) =
    let (w, i) = init-Holds c s.pool.entries s.pool.initialized s.pool.live _ _ v in
    let p = curl_pool_init s.pool in
    conclude-IsSystem c p s.requests (scan c p.live p.entries) (w, told) i
      (scan_lem c p.live p.entries w.entries w.once)

-- The same numbers, written otherwise.
pub regroup :
    {c : Curl} {p : CurlPool} {o q o' q' : ℕ → ℕ}
    → Holds c p o q
    → ((k : ℕ) → o' k ≡ o k)
    → ((k : ℕ) → q' k ≡ q k)
    → Holds c p o' q'
regroup v f g = record {
  entries = v.entries;
  owned = λ k. omega (arith, v.owned k, f k);
  once = v.once;
  lent = λ k. omega (arith, v.lent k, g k);
  started = v.started;
}

-- `curl_pool_contains` tells where a handle of a request came from.
pub contains-of_pool :
    (h : ℕ) (p : CurlPool) (b : Bool) (o q : ℕ)
    → stored h p.entries + ((if b then 0 else 1) + o) ≤ 1
    → (if b then 1 else 0) + q ≤ busy h p.entries
    → curl_pool_contains h p ≡ b
unfolding curl_pool_contains
contains-of_pool h p true o q s l =
    (contains_in-stored h p.entries).1 (omega (arith, busy-le-stored h p.entries))
contains-of_pool h p false o q s l = (contains_in-stored h p.entries).0 (omega arith)

pub ask_lem :
    (c : Curl) (p : CurlPool) (rs : List Request) (i : ℕ)
    → AreRequests c rs
    → ((k : ℕ) → stored k p.entries + own k rs ≤ 1)
    → ((k : ℕ) → of_pool k rs ≤ busy k p.entries)
    → AreRequests c (ask p rs i)
      × ((k : ℕ) → own k (ask p rs i) ≡ own k rs)
      × ((k : ℕ) → of_pool k (ask p rs i) ≡ of_pool k rs)
unfolding ask
ask_lem c p [] i told s l = (tt, λ k. refl, λ k. refl)
ask_lem c p (r ∷ rs) zero told s l = (
  (
    told.0,
    contains-of_pool r.handle p r.of_pool (own r.handle rs) (of_pool r.handle rs)
        (ground (arith, s r.handle)) (ground (arith, l r.handle)),
    told.2,
  ),
  λ k. refl,
  λ k. refl,
)
ask_lem c p (r ∷ rs) (suc i) told s l =
    let (told', n, m) =
      ask_lem c p rs i told.2 (λ k. omega (arith, s k)) (λ k. omega (arith, l k)) in
    ((told.0, told.1, told'), λ k. omega (arith, n k), λ k. omega (arith, m k))
