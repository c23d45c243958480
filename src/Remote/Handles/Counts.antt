-- ===== src/Remote/Handles/Counts.antt =====
-- How often a handle stands in the pool and among the live handles, and what the operations on
-- the entries do to it.
use linyaps_store.Base.{
  ℕ, ◌+◌, ◌≤◌, ◌<◌, ◌≡◌, refl, Option, none, some, List, [], ◌∷◌, Bool, true, false, ◌>>=◌, Returns,
  ◌==◌, if◌then◌else◌, arith, Str, Bool-cases, ==_iff, inl, inr,
}
use linyaps_store.Remote.Handles.{
  Curl, CurlPoolEntry, count, is_handle, json_headers, contains_in, curl_easy_cleanup, free_entry,
  clean_handle, clean_entries,
}

abbrev pub one : ℕ → Option ℕ → ℕ
one k none = 0
one k (some h) = if h == k then 1 else 0

-- The entries that have the handle, and those of them in use.
abbrev pub stored : ℕ → List CurlPoolEntry → ℕ
stored k [] = 0
stored k (e ∷ es) = one k e.handle + stored k es

abbrev pub busy : ℕ → List CurlPoolEntry → ℕ
busy k [] = 0
busy k (e ∷ es) = (if e.in_use then one k e.handle else 0) + busy k es

-- An entry in use has a handle, and one that has a handle has the headers.
abbrev pub IsEntry : Curl → Option ℕ → List Str → Bool → Type 0
IsEntry c none headers in_use = in_use ≡ false
IsEntry c (some h) headers in_use = headers ≡ json_headers c

abbrev pub AreEntries : Curl → List CurlPoolEntry → Type 0
AreEntries c [] = Unit
AreEntries c (e ∷ es) = IsEntry c e.handle e.headers e.in_use × AreEntries c es

pub busy-le-stored : (k : ℕ) (es : List CurlPoolEntry) → busy k es ≤ stored k es
busy-le-stored k [] = omega arith
busy-le-stored k (e ∷ es) = ground (arith, busy-le-stored k es)

-- `curl_pool_contains` finds exactly the handles of the entries.
pub contains_in-stored :
    (h : ℕ) (es : List CurlPoolEntry)
    → ((stored h es ≡ 0) → contains_in h es ≡ false) × (0 < stored h es → contains_in h es ≡ true)
unfolding contains_in
contains_in-stored h [] = (λ _. refl, λ p. absurd (omega arith))
contains_in-stored h (e ∷ es) = one_entry e.handle (contains_in-stored h es)
  where
    one_entry :
        (o : Option ℕ)
        → ((stored h es ≡ 0) → contains_in h es ≡ false)
          × (0 < stored h es → contains_in h es ≡ true)
        → ((one h o + stored h es ≡ 0) → (if is_handle h o then true else contains_in h es) ≡ false)
          × (0 < one h o + stored h es → (if is_handle h o then true else contains_in h es) ≡ true)
    one_entry none ih = (λ p. ih.0 (omega arith), λ p. ih.1 (omega arith))
    one_entry (some j) ih = elim (Bool-cases (j == h)) [
      | inl e ↦ rw e (λ p. absurd (omega arith), λ _. refl)
      | inr e ↦ rw e (λ p. ih.0 (omega arith), λ p. ih.1 (omega arith))
    ]

-- Cleaning up a live handle takes it off once.
pub cleanup_live :
    (h : ℕ) (live : List ℕ)
    → 0 < count h live
    → Returns
        (curl_easy_cleanup h live)
        λ rest. (k : ℕ) → count k live ≡ one k (some h) + count k rest
unfolding curl_easy_cleanup
cleanup_live h [] p = absurd (omega arith)
cleanup_live h (x ∷ live) p = elim (Bool-cases (x == h)) [
  | inl e ↦ (live, rw e, λ k. ground arith)
  | inr e ↦
      let (rest, r, q) = cleanup_live h live (ground arith) in
      (x ∷ rest, rw (e, r), λ k. ground (arith, q k))
]

one-other : (h : ℕ) (o : Option ℕ) → is_handle h o ≡ false → one h o ≡ 0
one-other h none p = refl
one-other h (some j) p = rw p

-- The entry that has the handle, if it stands in no other.
found-IsEntry :
    (c : Curl) (h : ℕ) (es : List CurlPoolEntry) (o : Option ℕ) (headers : List Str) (in_use : Bool)
    → is_handle h o ≡ true
    → IsEntry c o headers in_use
    → one h o + stored h es ≤ 1
    → 0 < (if in_use then one h o else 0) + busy h es
    → IsEntry c o headers false
      × ((k : ℕ) → (if in_use then one k o else 0) + busy k es ≡ one k (some h) + (0 + busy k es))
found-IsEntry c h es none headers in_use p a s b = cc
found-IsEntry c h es (some j) headers true p a s b = (a, λ k. rw ((==_iff j h).0 p) (omega arith))
found-IsEntry c h es (some j) headers false p a s b = absurd (ground (arith, busy-le-stored h es))

-- Giving back a handle that stands in one entry, which is in use, frees that entry alone.
pub free_entry-busy :
    (c : Curl) (h : ℕ) (es : List CurlPoolEntry)
    → AreEntries c es
    → stored h es ≤ 1
    → 0 < busy h es
    → AreEntries c (free_entry h es)
      × ((k : ℕ) → busy k es ≡ one k (some h) + busy k (free_entry h es))
      × ((k : ℕ) → stored k (free_entry h es) ≡ stored k es)
unfolding free_entry
free_entry-busy c h [] a s b = absurd (omega arith)
free_entry-busy c h (e ∷ es) a s b = elim (Bool-cases (is_handle h e.handle)) [
  | inl found ↦
      let (ok_entry, less) = found-IsEntry c h es e.handle e.headers e.in_use found a.0 s b in
      rw found ((ok_entry, a.1), less, λ k. refl)
  | inr other ↦
      let zero_here = one-other h e.handle other in
      let (ok_rest, less, same_rest) =
        free_entry-busy c h es a.1 (omega arith) (passed e.in_use (one h e.handle) zero_here b) in
      rw other ((a.0, ok_rest), λ k. omega (arith, less k), λ k. omega (arith, same_rest k))
]
  where
    passed :
        (in_use : Bool) (n : ℕ) → n ≡ 0 → 0 < (if in_use then n else 0) + busy h es → 0 < busy h es
    passed true n p q = omega arith
    passed false n p q = omega arith

clean_handle_live :
    (o : Option ℕ) (live : List ℕ)
    → ((k : ℕ) → one k o ≤ count k live)
    → Returns (clean_handle o live) λ rest. (k : ℕ) → count k live ≡ one k o + count k rest
unfolding clean_handle
clean_handle_live none live p = (live, refl, λ k. omega arith)
clean_handle_live (some h) live p = cleanup_live h live (ground (arith, p h))

-- Cleaning up the handles of the entries, all live, takes each off.
pub clean_entries_live :
    (es : List CurlPoolEntry) (live : List ℕ)
    → ((k : ℕ) → stored k es ≤ count k live)
    → Returns (clean_entries es live) λ rest. (k : ℕ) → count k live ≡ stored k es + count k rest
unfolding clean_entries
clean_entries_live [] live p = (live, refl, λ k. omega arith)
clean_entries_live (e ∷ es) live p =
    let (less, run_one, q) = clean_handle_live e.handle live (λ k. omega (arith, p k)) in
    let (rest, run_rest, r) = clean_entries_live es less (λ k. omega (arith, p k, q k)) in
    (rest, rw (run_one, ◌>>=◌) run_rest, λ k. omega (arith, q k, r k))
