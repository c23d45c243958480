-- ===== src/Remote/Handles/Scans.antt =====
-- What the loop of curl_pool_acquire does to the entries and to the live handles.
use linyaps_store.Base.{
  ℕ, ◌+◌, ◌≤◌, ◌≡◌, refl, Option, none, some, List, [], ◌∷◌, Bool, true, false, if◌then◌else◌,
  arith, Str, Option-cases, inl, inr,
}
use linyaps_store.Remote.Handles.{
  Curl, CurlPoolEntry, count, json_headers, Scan, full, failed, taken, take_entry, create_handle,
  pass_entry, scan,
}
use linyaps_store.Remote.Handles.Counts.{one, stored, busy, IsEntry, AreEntries}

-- A handle that is taken has the headers, is one more in use, and, if it is new, is one more live
-- handle and one more that is stored.
abbrev pub Scanned : Curl → List ℕ → List CurlPoolEntry → Scan → Type 0
Scanned c live es full = Unit
Scanned c live es failed = Unit
Scanned c live es (taken h headers more after) =
    (headers ≡ json_headers c)
    × AreEntries c after
    × ((k : ℕ) → busy k after ≡ one k (some h) + busy k es)
    × ((k : ℕ) → stored k after + count k live ≡ stored k es + count k more)
    × ((k : ℕ) → count k more ≤ 1)

take_entry_lem :
    (c : Curl) (live : List ℕ) (o : Option ℕ) (headers : List Str) (es : List CurlPoolEntry)
    → AreEntries c ((record { handle = o; headers = headers; in_use = false }) ∷ es)
    → ((k : ℕ) → count k live ≤ 1)
    → Scanned c live
        ((record { handle = o; headers = headers; in_use = false }) ∷ es)
        (take_entry c live o headers es)
unfolding take_entry
take_entry_lem c live (some h) headers es a once =
    (a.0, a, λ k. omega arith, λ k. omega arith, once)
take_entry_lem c live none headers es a once = elim (Option-cases (c.easy_init live)) [
  | inl e ↦ rw (e, create_handle) tt
  | inr (h, e) ↦
      let new = c.fresh live h e in
      rw (e, create_handle)
        (refl, (refl, a.1), λ k. omega arith, λ k. ground arith, λ k. ground (arith, once k))
]

pass_entry_lem :
    (c : Curl) (live : List ℕ) (e : CurlPoolEntry) (es : List CurlPoolEntry) (found : Scan)
    → IsEntry c e.handle e.headers e.in_use
    → Scanned c live es found
    → Scanned c live (e ∷ es) (pass_entry e found)
unfolding pass_entry
pass_entry_lem c live e es full a s = tt
pass_entry_lem c live e es failed a s = tt
pass_entry_lem c live e es (taken h headers more after) a (same_headers, ready, b, n, once) =
    (same_headers, (a, ready), λ k. omega (arith, b k), λ k. omega (arith, n k), once)

pub scan_lem :
    (c : Curl) (live : List ℕ) (es : List CurlPoolEntry)
    → AreEntries c es
    → ((k : ℕ) → count k live ≤ 1)
    → Scanned c live es (scan c live es)
unfolding scan
scan_lem c live [] a once = tt
scan_lem c live (e ∷ es) a once =
    scan_entry e.handle e.headers e.in_use a (scan_lem c live es a.1 once)
  where
    scan_entry :
        (o : Option ℕ) (headers : List Str) (in_use : Bool)
        → AreEntries c ((record { handle = o; headers = headers; in_use = in_use }) ∷ es)
        → Scanned c live es (scan c live es)
        → Scanned c live ((record { handle = o; headers = headers; in_use = in_use }) ∷ es) (
            if in_use
            then pass_entry
                (record { handle = o; headers = headers; in_use = in_use })
                (scan c live es)
            else take_entry c live o headers es)
    scan_entry o headers true b ih = pass_entry_lem c live _ es (scan c live es) b.0 ih
    scan_entry o headers false b ih = take_entry_lem c live o headers es b once
