-- ===== src/Remote/Handles.antt =====
-- lib/linyaps_remote.c, the pool of libcurl handles (CURL_POOL_SIZE, CurlPoolEntry,
-- curl_pool_acquire, curl_pool_release, curl_pool_contains, curl_pool_destroy), and the part of
-- http_post_json that takes a handle and gives it back. libcurl is a parameter; a handle is the
-- number of its address, and a list of headers is its strings, with [] for NULL.
pub mod Counts
pub mod Scans
pub mod Steps
pub mod Holding
pub mod Finish
pub mod Leases
use linyaps_store.Base.{
  ℕ, zero, suc, Option, none, some, List, [], ◌∷◌, Bool, true, false, ◌≡◌, Run, fault, dangling, ok,
  ◌>>=◌, ◌==◌, if◌then◌else◌, replicate, Str, codes,
}

abbrev pub count : ℕ → List ℕ → ℕ
count k [] = 0
count k (x ∷ xs) = let rest = count k xs in if x == k then suc rest else rest

-- What the code relies on: `curl_easy_init`, given the handles that are in use, returns NULL or
-- a handle that is not among them.
pub record Curl : Type 0 where
  pub easy_init : List ℕ → Option ℕ
  pub slist_append : List Str → Str → List Str
  pub fresh : (live : List ℕ) (h : ℕ) → easy_init live ≡ some h → count h live ≡ 0

pub record CurlPoolEntry : Type 0 where
  pub handle : Option ℕ
  pub headers : List Str
  pub in_use : Bool

-- `g_curl_pool` and `g_curl_pool_initialized`. `live` is not in the program: the handles that
-- `curl_easy_init` has given out and `curl_easy_cleanup` has not taken back.
pub record CurlPool : Type 0 where
  pub entries : List CurlPoolEntry
  pub initialized : Bool
  pub live : List ℕ

abbrev pub curl_pool_size : ℕ
curl_pool_size = 4

abbrev pub blank_entry : CurlPoolEntry
blank_entry = record { handle = none; headers = []; in_use = false }

-- The static data before the first request.
abbrev pub static_pool : CurlPool
static_pool = record {
  entries = replicate curl_pool_size blank_entry;
  initialized = false;
  live = [];
}

-- The headers of every request.
abbrev pub json_headers : Curl → List Str
json_headers c =
    c.slist_append (c.slist_append [] (codes "Content-Type: application/json"))
      (codes "Accept: application/json")

pub curl_pool_init : CurlPool → CurlPool
curl_pool_init p =
    if p.initialized
    then p
    else record p { entries = replicate curl_pool_size blank_entry; initialized = true }

-- How the loop over the entries ends: all are in use, the library gives no handle, or an entry is
-- taken, with its handle, its headers, the live handles and the entries then.
pub data Scan : Type 0 where
  full failed : Scan
  taken : ℕ → List Str → List ℕ → List CurlPoolEntry → Scan

-- `g_curl_pool[i].handle = curl_easy_init()` and what follows
pub create_handle : Curl → List ℕ → Option ℕ → List CurlPoolEntry → Scan
create_handle c live none es = failed
create_handle c live (some h) es =
    taken h (json_headers c) (h ∷ live)
      ((record { handle = some h; headers = json_headers c; in_use = true }) ∷ es)

pub take_entry : Curl → List ℕ → Option ℕ → List Str → List CurlPoolEntry → Scan
unfolding create_handle
take_entry c live none headers es = create_handle c live (c.easy_init live) es
take_entry c live (some h) headers es =
    taken h headers live ((record { handle = some h; headers = headers; in_use = true }) ∷ es)

pub pass_entry : CurlPoolEntry → Scan → Scan
pass_entry e full = full
pass_entry e failed = failed
pass_entry e (taken h headers live es) = taken h headers live (e ∷ es)

pub scan : Curl → List ℕ → List CurlPoolEntry → Scan
unfolding take_entry pass_entry
scan c live [] = full
scan c live (e ∷ es) =
    if e.in_use then pass_entry e (scan c live es) else take_entry c live e.handle e.headers es

-- What `curl_pool_acquire` returns. The code does not say which of the two a handle is: it asks
-- `curl_pool_contains`.
pub data Acquired : Type 0 where
  no_handle : Acquired
  pooled temporary : ℕ → List Str → Acquired

-- `/* 池已满，创建临时 handle */`
pub make_temporary : Curl → CurlPool → Option ℕ → Acquired × CurlPool
make_temporary c p none = (no_handle, p)
make_temporary c p (some h) = (temporary h (json_headers c), record p { live = h ∷ p.live })

pub conclude_scan : Curl → CurlPool → Scan → Acquired × CurlPool
unfolding make_temporary
conclude_scan c p full = make_temporary c p (c.easy_init p.live)
conclude_scan c p failed = (no_handle, p)
conclude_scan c p (taken h headers live es) =
    (pooled h headers, record p { entries = es; live = live })

unfoldable pub curl_pool_acquire : Curl → CurlPool → Acquired × CurlPool
unfolding curl_pool_init scan conclude_scan
curl_pool_acquire c p = let q = curl_pool_init p in conclude_scan c q (scan c q.live q.entries)

-- `g_curl_pool[i].handle == curl`
abbrev pub is_handle : ℕ → Option ℕ → Bool
is_handle h none = false
is_handle h (some j) = j == h

pub contains_in : ℕ → List CurlPoolEntry → Bool
contains_in h [] = false
contains_in h (e ∷ es) = let rest = contains_in h es in if is_handle h e.handle then true else rest

unfoldable pub curl_pool_contains : ℕ → CurlPool → Bool
unfolding contains_in
curl_pool_contains h p = contains_in h p.entries

-- `curl_easy_cleanup`, which may be called on a live handle only
pub curl_easy_cleanup : ℕ → List ℕ → Run (List ℕ)
curl_easy_cleanup h [] = fault dangling
curl_easy_cleanup h (x ∷ live) =
    let rest = curl_easy_cleanup h live >>= λ r. ok (x ∷ r) in if x == h then ok live else rest

pub free_entry : ℕ → List CurlPoolEntry → List CurlPoolEntry
free_entry h [] = []
free_entry h (e ∷ es) =
    let rest = e ∷ free_entry h es in
    if is_handle h e.handle then record e { in_use = false } ∷ es else rest

-- `curl_pool_release` of a handle that is not NULL
unfoldable pub curl_pool_release : ℕ → Bool → CurlPool → Run CurlPool
unfolding free_entry curl_easy_cleanup
curl_pool_release h true p = ok (record p { entries = free_entry h p.entries })
curl_pool_release h false p = do live ← curl_easy_cleanup h p.live; ok (record p { live = live })

pub clean_handle : Option ℕ → List ℕ → Run (List ℕ)
unfolding curl_easy_cleanup
clean_handle none live = ok live
clean_handle (some h) live = curl_easy_cleanup h live

pub clean_entries : List CurlPoolEntry → List ℕ → Run (List ℕ)
unfolding clean_handle
clean_entries [] live = ok live
clean_entries (e ∷ es) live = clean_handle e.handle live >>= clean_entries es

pub blank_entries : List CurlPoolEntry → List CurlPoolEntry
blank_entries [] = []
blank_entries (e ∷ es) = blank_entry ∷ blank_entries es

pub curl_pool_destroy : CurlPool → Run CurlPool
unfolding clean_entries blank_entries
curl_pool_destroy p = do
  live ← clean_entries p.entries p.live
  ok (record { entries = blank_entries p.entries; initialized = false; live = live })
