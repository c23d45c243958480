-- ===== src/Filter.antt =====
-- lib/linyaps_dbus_msg.c, `filter_store_search_results`: it compacts the array of results in place.
-- The array is a list of pointers; what is freed is only dropped.
pub mod Keep
pub mod Arrays
pub mod Index
pub mod Refine
pub mod Results
pub mod Again
mod Examples
use Prim.Native.Nat.{Ordering}
use linyaps_store.Base.{
  ℕ, zero, suc, ◌+◌, ◌-◌, ◌≡◌, Option, none, some, List, [], ◌∷◌, Bool, true, false, ◌&&◌, Run, ok,
  ◌>>=◌, read, deref, set, leb, ◌==◌, if◌then◌else◌, Str, codes, same,
}
use linyaps_store.Types.{PackageInfo}
use linyaps_store.Version.{compare_versions}

-- `s ? s : ""`
abbrev pub or_empty : Option Str → Str
or_empty none = []
or_empty (some s) = s

unfoldable pub same_package_slot : PackageInfo → PackageInfo → Bool
same_package_slot a b =
    same (or_empty a.repo) (or_empty b.repo)
    && (same (or_empty a.id) (or_empty b.id)
        && same (or_empty a.module_name) (or_empty b.module_name))

-- `candidate->module && strcmp(candidate->module, "develop") == 0`
unfoldable pub is_develop : PackageInfo → Bool
is_develop p = elim p.module_name [ none ↦ false | some m ↦ same m (codes "develop") ]

-- `compare_versions(a->version, b->version) < 0`
unfoldable pub is_older : PackageInfo → PackageInfo → Bool
is_older a b = elim (compare_versions a.version b.version) [ Ordering.lt ↦ true | _ ↦ false ]

-- The inner loop: the first index below `out`, from `j` on, whose slot is the candidate's, or `out`.
-- The first argument counts the rounds that are left, `out - j`.
unfoldable pub find_slot : ℕ → List (Option PackageInfo) → PackageInfo → ℕ → Run ℕ
find_slot zero list c j = ok j
find_slot (suc n) list c j = do
  p ← read list j
  x ← deref p
  elim (same_package_slot x c) [ true ↦ ok j | false ↦ find_slot n list c (j + 1) ]

-- The slot at `found` is the candidate's: the newer of both stays.
unfoldable pub settle :
    List (Option PackageInfo) → ℕ → PackageInfo → ℕ → Run (List (Option PackageInfo) × ℕ)
settle list out c found = do
  p ← read list found
  x ← deref p
  ok (if is_older x c then (set list found (some c), out) else (list, out))

-- The body of the outer loop for a candidate: the array and `out` afterwards.
unfoldable pub filter_one :
    List (Option PackageInfo) → ℕ → PackageInfo → Run (List (Option PackageInfo) × ℕ)
unfolding settle
filter_one list out c =
    if is_develop c
    then ok (list, out)
    else (find_slot out list c 0 >>= λ found.
        if found == out then ok (set list out (some c), out + 1) else settle list out c found)

-- The outer loop, `n` rounds from index `i` on.
unfoldable pub filter_loop :
    ℕ → List (Option PackageInfo) → ℕ → ℕ → Run (List (Option PackageInfo) × ℕ)
filter_loop zero list i out = ok (list, out)
filter_loop (suc n) list i out = do
  p ← read list i
  elim p [
    | none ↦ filter_loop n list (i + 1) out
    | some c ↦ filter_one list out c >>= λ r. filter_loop n r.0 (i + 1) r.1
  ]

-- `filter_store_search_results(&items, &count)`: the array and the new count; none for a NULL array.
unfoldable pub filter_store_search_results :
    Option (List (Option PackageInfo)) → ℕ → Run (Option (List (Option PackageInfo)) × ℕ)
filter_store_search_results none count = ok (none, count)
filter_store_search_results (some list) count =
    filter_loop count list 0 0 >>= λ r. ok (some r.0, r.1)
