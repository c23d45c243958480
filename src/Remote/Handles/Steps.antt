-- ===== src/Remote/Handles/Steps.antt =====
-- lib/linyaps_remote.c, http_post_json, as requests on several threads use the pool: a request
-- takes a handle, asks whether it is of the pool, and gives it back. Each of the three is one
-- critical section, so a history is a list of them in any order that each request's own allows.
use linyaps_store.Base.{
  ℕ, zero, suc, Option, none, some, List, [], ◌∷◌, Bool, true, false, Run, ok, ◌>>=◌, Str,
}
use linyaps_store.Remote.Handles.{
  Curl, CurlPool, Acquired, no_handle, pooled, temporary, static_pool, curl_pool_acquire,
  curl_pool_contains, curl_pool_release,
}

-- A request between the call of curl_pool_acquire and that of curl_pool_release. `is_pooled` is
-- what curl_pool_contains said, once it is asked. `of_pool` is not in the program: where the
-- handle came from.
pub record Request : Type 0 where
  pub handle : ℕ
  pub headers : List Str
  pub of_pool : Bool
  pub is_pooled : Option Bool

pub record System : Type 0 where
  pub pool : CurlPool
  pub requests : List Request

abbrev pub initial : System
initial = record { pool = static_pool; requests = [] }

-- The steps of the requests; an index is that of a request under way.
pub data Step : Type 0 where
  begins : Step
  asks finishes : ℕ → Step

unfoldable pub admit : List Request → Acquired × CurlPool → System
admit rs (no_handle, p) = record { pool = p; requests = rs }
admit rs (pooled h headers, p) = record {
  pool = p;
  requests = (record { handle = h; headers = headers; of_pool = true; is_pooled = none }) ∷ rs;
}
admit rs (temporary h headers, p) = record {
  pool = p;
  requests = (record { handle = h; headers = headers; of_pool = false; is_pooled = none }) ∷ rs;
}

-- `is_pooled = curl_pool_contains(curl)`
unfoldable pub ask : CurlPool → List Request → ℕ → List Request
ask p [] i = []
ask p (r ∷ rs) zero = record r { is_pooled = some (curl_pool_contains r.handle p) } ∷ rs
ask p (r ∷ rs) (suc i) = r ∷ ask p rs i

-- A request that has not asked yet does not finish.
unfoldable pub give_back : CurlPool → Request → List Request → Option Bool → Run System
give_back p r rs none = ok (record { pool = p; requests = r ∷ rs })
give_back p r rs (some is_pooled) = do
  q ← curl_pool_release r.handle is_pooled p
  ok (record { pool = q; requests = rs })

unfoldable pub put_first : Request → System → System
put_first r s = record s { requests = r ∷ s.requests }

unfoldable pub finish : CurlPool → List Request → ℕ → Run System
unfolding give_back put_first
finish p [] i = ok (record { pool = p; requests = [] })
finish p (r ∷ rs) zero = give_back p r rs r.is_pooled
finish p (r ∷ rs) (suc i) = finish p rs i >>= λ s. ok (put_first r s)

unfoldable pub step : Curl → System → Step → Run System
unfolding admit ask finish
step c s begins = ok (admit s.requests (curl_pool_acquire c s.pool))
step c s (asks i) = ok (record s { requests = ask s.pool s.requests i })
step c s (finishes i) = finish s.pool s.requests i

unfoldable pub run : Curl → System → List Step → Run System
run c s [] = ok s
run c s (t ∷ ts) = step c s t >>= λ u. run c u ts
