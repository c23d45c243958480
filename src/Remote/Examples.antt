-- ===== src/Remote/Examples.antt =====
-- Runs on concrete inputs.
use linyaps_store.Base.{
  replicate, ℕ, suc, ◌+◌, ◌<◌, ◌≡◌, refl, Option, none, some, List, [], ◌∷◌, ◌++◌, true, false,
  Returns, codes, arith, same, strcmp, length, some_inj, ◌⊎◌,
}
use linyaps_store.Base.Memory.{plenty, plenty-IsPlenty, starved}
use linyaps_store.Types.{PackageInfo, blank_info}
use linyaps_store.Json.Sample.{
  Node, text, num, object, items, end, field, nil, cons, json_of, item, number, array, find,
  to_list,
}
use linyaps_store.Remote.Handles.{
  Curl, CurlPool, no_handle, count, curl_pool_acquire, curl_pool_contains, curl_pool_release,
  curl_pool_destroy, blank_entry, json_headers,
}
use linyaps_store.Remote.Handles.Steps.{Step, begins, asks, finishes, initial, run, step}
use linyaps_store.Remote.Handles.Counts.{stored}
use linyaps_store.Remote.Handles.Holding.{IsSystem, initial-IsSystem}
use linyaps_store.Remote.Handles.Leases.{IsExclusive, run-IsExclusive, run-destroy}
use linyaps_store.Remote.Buffer.{Realloc}
use linyaps_store.Remote.Http.{Transfer, http_post_json}
use linyaps_store.Remote.Http.Replies.{IsReply, http_post_json_lem}
use linyaps_store.Remote.Records.{RemoteAppInfo, parse_records_array}
use linyaps_store.Remote.Records.Lists.{IsFront, parsed, parse_records_array_lem}
use linyaps_store.Remote.Pages.{Backend, remote_fetch_page}
use linyaps_store.Remote.Pages.Answers.{HasMemory, IsPage, reply, remote_fetch_page_lem}
use linyaps_store.Remote.Checks.{linyaps_remote_check_updates}
use linyaps_store.Remote.Checks.Listed.{IsOffer, offered, check_updates-IsOffer}

sum : List ℕ → ℕ
sum [] = 0
sum (x ∷ xs) = x + sum xs

-- A handle that is larger than all that are live together.
next_handle : List ℕ → Option ℕ
unfolding sum
next_handle live = some (suc (sum live))

count_above : (h : ℕ) (live : List ℕ) → sum live < h → count h live ≡ 0
unfolding sum
count_above h [] l = refl
count_above h (x ∷ live) l = ground (arith, count_above h live)

next_handle-fresh : (live : List ℕ) (h : ℕ) → next_handle live ≡ some h → count h live ≡ 0
unfolding next_handle
next_handle-fresh live h e = count_above h live (omega (arith, some_inj e))

abbrev curl : Curl
curl = record {
  easy_init = next_handle;
  slist_append = λ list header. list ++ header ∷ [];
  fresh = next_handle-fresh;
}

-- Five requests begin, one more than the pool has entries; two of them end.
abbrev history : List Step
history =
    begins ∷ begins ∷ begins ∷ begins ∷ begins ∷ asks 0 ∷ asks 4 ∷ finishes 0 ∷ finishes 3 ∷ []

run-IsExclusive_example : Returns (run curl initial history) (IsExclusive curl)
run-IsExclusive_example = run-IsExclusive curl history

-- One request, from its begin to its end.
abbrev one_request : List Step
one_request = begins ∷ asks 0 ∷ finishes 0 ∷ []

abbrev used : CurlPool
used = record {
  entries =
      (record { handle = some 1; headers = json_headers curl; in_use = false })
      ∷ blank_entry
      ∷ blank_entry
      ∷ blank_entry
      ∷ [];
  initialized = true;
  live = 1 ∷ [];
}

run-destroy_example :
    Returns
      (curl_pool_destroy used)
      λ q. (q.live ≡ []) × ((k : ℕ) → stored k q.entries ≡ 0) × (q.initialized ≡ false)
unfolding run step curl_pool_acquire curl_pool_contains curl_pool_release next_handle sum
run-destroy_example = run-destroy curl one_request used refl

-- Two chunks, of which the second reaches past the first 4096 bytes.
abbrev transfer : Transfer
transfer = record { chunks = codes "ab" ∷ replicate 5000 b'c' ∷ []; completes = true }

abbrev memory : Realloc
memory = record { gives = λ size. true; unknown = 0 }

http_post_json_example : Returns (http_post_json curl memory transfer initial.pool) λ d.
    IsSystem curl (record { pool = d.1; requests = [] })
    × (((curl_pool_acquire curl initial.pool).0 ≡ no_handle × (d.0 ≡ none))
        ⊎ IsReply memory transfer d.0)
http_post_json_example =
    http_post_json_lem curl memory transfer initial (initial-IsSystem curl) (omega arith)

abbrev app : Node
app =
    object (field (codes "appId") (text (codes "a")) (field (codes "name") (text (codes "A")) end))

-- {"code": 200, "data": {"records": [{"appId": "a", "name": "A"}, {"name": "b"}], "total": 2}}
abbrev page : Node
page = object (
    field (codes "code") (num 200) (
      field (codes "data")
        (object (
          field (codes "records")
            (items (cons app (cons (object (field (codes "name") (text (codes "b")) end)) nil)))
            (field (codes "total") (num 2) end)))
        end))

-- {"code": 200, "data": [{"appId": "a", "name": "A"}]}
abbrev update : Node
update = object (field (codes "code") (num 200) (field (codes "data") (items (cons app nil)) end))

-- A `realloc` that has no memory, and records for which there is none.
parse_records_array_example :
    Returns (parse_records_array (json_of page) (λ size. false) (λ n. starved) (app ∷ [])) λ r.
      (list : List RemoteAppInfo) × IsFront
        (λ size. false)
        (parsed (json_of page) (λ n. starved) (app ∷ []))
        list
      × (r.1 ≡ length list)
      × ((r.0 ≡ some list) ⊎ ((r.0 ≡ none) × (list ≡ [])))
parse_records_array_example =
    parse_records_array_lem (json_of page) (λ size. false) (λ n. starved) (app ∷ []) (omega arith)

abbrev backend : Backend
backend = record {
  creates = λ n. true;
  print_object = λ req. some (codes "{}");
  print_array = λ req. some (codes "[]");
  post = λ url body. some (codes "{}");
  machine = some (codes "aarch64");
  gives = λ size. true;
  memory = λ n. plenty;
}

backend-HasMemory : HasMemory backend
backend-HasMemory = record { array = λ size. refl; record_memory = λ n. plenty-IsPlenty }

remote_fetch_page_example :
    Returns
      (remote_fetch_page (json_of page) backend (some []) (codes "u"))
      (IsPage (json_of page) backend (reply (json_of page) backend (codes "u") (some [])))
unfolding item number array to_list find same strcmp
remote_fetch_page_example =
    remote_fetch_page_lem (json_of page) backend (some []) (codes "u") backend-HasMemory
      (omega arith)

abbrev installed : Option PackageInfo
installed = some (record blank_info { id = some (codes "a"); version = some (codes "1") })

check_updates_example :
    Returns
      (linyaps_remote_check_updates (json_of update) backend (some (installed ∷ none ∷ [])) 2)
      (IsOffer (json_of update) backend (offered (json_of update) backend (installed ∷ none ∷ [])))
unfolding item number array to_list find same strcmp
check_updates_example =
    check_updates-IsOffer (json_of update) backend installed (none ∷ []) (λ n. refl)
      backend-HasMemory (omega arith)
