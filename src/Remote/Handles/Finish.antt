-- ===== src/Remote/Handles/Finish.antt =====
-- Giving a handle back keeps the invariant.
use linyaps_store.Base.{
  ℕ, zero, suc, ◌+◌, refl, Option, none, some, List, [], ◌∷◌, Bool, true, false, ◌>>=◌, Returns,
  if◌then◌else◌, arith,
}
use linyaps_store.Remote.Handles.{Curl, CurlPool, curl_pool_release}
use linyaps_store.Remote.Handles.Steps.{Request, give_back, put_first, finish}
use linyaps_store.Remote.Handles.Counts.{one, cleanup_live, free_entry-busy}
use linyaps_store.Remote.Handles.Holding.{of_pool, own, IsTold, AreRequests, Holds, regroup}

pub give_back_lem :
    (c : Curl) (p : CurlPool) (r : Request) (rs : List Request) (o q : ℕ → ℕ) (said : Option Bool)
    → Holds c p (λ k. own k (r ∷ rs) + o k) (λ k. of_pool k (r ∷ rs) + q k)
    → AreRequests c (r ∷ rs)
    → IsTold r.of_pool said
    → Returns (give_back p r rs said) λ s.
      Holds c s.pool (λ k. own k s.requests + o k) (λ k. of_pool k s.requests + q k)
      × AreRequests c s.requests
unfolding give_back curl_pool_release
give_back_lem c p r rs o q none v told right =
    (record { pool = p; requests = r ∷ rs }, refl, (v, told))
give_back_lem c p r rs o q (some true) v told right =
    let h = r.handle in
    let (entries, less, same_stored) =
      free_entry-busy c h p.entries v.entries (ground (arith, v.owned h, v.once h))
        (ground (arith, v.lent h, right)) in
    (
      _,
      refl,
      (
        record {
          entries = entries;
          owned = λ k. ground (arith, v.owned k, same_stored k, right);
          once = v.once;
          lent = λ k. ground (arith, v.lent k, less k, right);
          started = λ t. absurd (ground (arith, v.started t, v.lent h, right));
        },
        told.2,
      ),
    )
give_back_lem c p r rs o q (some false) v told right =
    let h = r.handle in
    let (live, e, less) = cleanup_live h p.live (ground (arith, v.owned h, right)) in
    (
      record { pool = record p { live = live }; requests = rs },
      rw (e, ◌>>=◌) refl,
      (
        record {
          entries = v.entries;
          owned = λ k. ground (arith, v.owned k, less k, right);
          once = λ k. omega (arith, v.once k, less k);
          lent = λ k. ground (arith, v.lent k, right);
          started = v.started;
        },
        told.2,
      ),
    )

pub finish_lem :
    (c : Curl) (p : CurlPool) (rs : List Request) (i : ℕ) (o q : ℕ → ℕ)
    → Holds c p (λ k. own k rs + o k) (λ k. of_pool k rs + q k)
    → AreRequests c rs
    → Returns (finish p rs i) λ s.
      Holds c s.pool (λ k. own k s.requests + o k) (λ k. of_pool k s.requests + q k)
      × AreRequests c s.requests
unfolding finish
finish_lem c p [] i o q v told = (record { pool = p; requests = [] }, refl, (v, tt))
finish_lem c p (r ∷ rs) zero o q v told = give_back_lem c p r rs o q r.is_pooled v told told.1
finish_lem c p (r ∷ rs) (suc i) o q v told =
    let mine : ℕ → ℕ = λ k. if r.of_pool then 0 else one k (some r.handle) in
    let theirs : ℕ → ℕ = λ k. if r.of_pool then one k (some r.handle) else 0 in
    let (s, e, (w, told')) =
      finish_lem c p rs i (λ k. mine k + o k) (λ k. theirs k + q k)
        (regroup v (λ k. omega arith) (λ k. omega arith)) told.2 in
    (
      put_first r s,
      rw (e, ◌>>=◌) refl,
      (regroup w (λ k. omega arith) (λ k. omega arith), (told.0, told.1, told')),
    )
