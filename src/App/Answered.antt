-- ===== src/App/Answered.antt =====
-- Whether the store takes the answer to a fetch that it has started.
use linyaps_store.Base.{
  ℕ, ◌+◌, ◌%◌, ◌/◌, ◌^◌, ◌<◌, ◌≡◌, ◌⊎◌, refl, sym, ap, ◌∙◌, Option, none, some, List, [], ◌∷◌, Bool,
  true, false, not, ◌==◌, if◌then◌else◌, Str, codes, same_refl, ℤ, Bool-cases, inl, inr, arith,
}
use mathlib.Core.Path.{subst}
use linyaps_store.Store.{
  NavItem, nav_recommended, nav_all, nav_ranking, nav_updates, nav_cat_office, nav_cat_system,
  nav_cat_dev, nav_cat_games, cat_all,
}
use linyaps_store.App.{
  StoreState, Packages, get_category_id_by_nav, get_category_id_by_tab, current_remote_category,
  page_of,
}
use linyaps_store.Grid.{current_items_per_page}
use linyaps_store.App.Fetch.{
  view, System, Fetch, remote, rank, ranking_code, copy, start_remote_fetch, start_ranking_fetch,
  open_page,
}
use linyaps_store.App.Events.{
  RemoteResult, on_ranking_ready, matches, fetch_remote_thread, same_category,
}

-- The store takes the answer to a fetch, if it is in this state when the answer arrives: a page of
-- the catalogue matches what is on show, and a page of a ranking is shown.
abbrev pub Taken : StoreState → Fetch → Type 0
Taken s (remote keyword category_id page size) =
    (list : Packages) (count : ℕ) (total : ℤ)
    → matches s (fetch_remote_thread list count total keyword category_id page) ≡ true
Taken s (rank code) =
    (result : RemoteResult)
    → let t = on_ranking_ready s (some result) code in
      (t.ranking_list ≡ result.list)
      × (t.ranking_count ≡ result.count)
      × (t.ranking_total ≡ result.total)
      × (t.loading_ranking ≡ false)

abbrev pub AllTaken : StoreState → List Fetch → Type 0
AllTaken s [] = Unit
AllTaken s (f ∷ fs) = Taken s f × AllTaken s fs

-- Strings are copied.
abbrev pub Copies : System → Type 0
Copies y = (s : Str) → y.strdup s ≡ true

pub copy_lem : (y : System) → Copies y → (o : Option Str) → copy y o ≡ o
copy_lem y h none = refl
copy_lem y h (some s) = rw (h s)

same_category_refl : (o : Option Str) → same_category o o ≡ true
same_category_refl none = refl
same_category_refl (some s) = same_refl s

page_refl : (n : ℕ) → (n == n) ≡ true
page_refl n = ground arith

browse_matches :
    (s : StoreState) (category_id : Option Str) (page : ℕ)
    → current_remote_category s ≡ category_id
    → s.current_page + 1 ≡ page
    → (size : ℕ) → Taken s (remote none category_id page size)
unfolding matches fetch_remote_thread
browse_matches s category_id page e e' size list count total =
    rw (e, same_category_refl category_id, e') (page_refl page)

pub search_matches :
    (s : StoreState) (c : ℕ) (keyword : Str) (category_id : Option Str) (page : ℕ)
    → s.search_buf ≡ c ∷ keyword
    → s.current_page + 1 ≡ page
    → (size : ℕ) → Taken s (remote (some (c ∷ keyword)) category_id page size)
unfolding matches fetch_remote_thread
search_matches s c keyword category_id page e e' size list count total =
    rw (e, same_refl (c ∷ keyword), e') (page_refl page)

-- What starting a fetch leaves of the store, and the fetch, if it could be started.
pub record Begun (s : StoreState) (keyword category_id : Option Str) (page : ℕ)
    (r : StoreState × List Fetch) : Type 0 where
  pub same_place : current_remote_category r.0 ≡ current_remote_category s
  pub same_page : r.0.current_page ≡ s.current_page
  pub same_text : r.0.search_buf ≡ s.search_buf
  pub fetches : (r.1 ≡ []) ⊎ ((size : ℕ) × (r.1 ≡ remote keyword category_id page size ∷ []))

Begun-if :
    (memory started : Bool) (s : StoreState) (keyword category_id k c : Option Str) (page size : ℕ)
    → k ≡ keyword
    → c ≡ category_id
    → Begun s keyword category_id page (
        if not memory
        then (record s { loading_remote = false; dirty = true }, [])
        else if started
        then (
          record s { loading_remote = true; dirty = true; last_page_size = size },
          remote k c page size ∷ [],
        )
        else (record s { loading_remote = false; dirty = true; last_page_size = size }, []))
unfolding current_remote_category
Begun-if false started s keyword category_id k c page size e e' = record {
  same_place = refl;
  same_page = refl;
  same_text = refl;
  fetches = inl refl;
}
Begun-if true true s keyword category_id k c page size e e' = record {
  same_place = refl;
  same_page = refl;
  same_text = refl;
  fetches = inr (size, λ i. remote (e i) (e' i) page size ∷ []);
}
Begun-if true false s keyword category_id k c page size e e' = record {
  same_place = refl;
  same_page = refl;
  same_text = refl;
  fetches = inl refl;
}

pub start_remote_fetch-Begun :
    (y : System) (s : StoreState) (keyword category_id : Option Str) (page : ℕ)
    → Copies y
    → Begun s keyword category_id page (start_remote_fetch y s keyword category_id page)
unfolding start_remote_fetch
start_remote_fetch-Begun y s keyword category_id page h =
    Begun-if y.malloc y.thread s keyword category_id (copy y keyword) (copy y category_id) page
      (current_items_per_page y.gap y.margin (some (view s)) true) (copy_lem y h keyword)
      (copy_lem y h category_id)

pub all_taken :
    (s : StoreState) (fs : List Fetch) (f : ℕ → Fetch)
    → ((size : ℕ) → Taken s (f size))
    → (fs ≡ []) ⊎ ((size : ℕ) × (fs ≡ f size ∷ []))
    → AllTaken s fs
all_taken s fs f h (inl e) = subst (AllTaken s) (sym e) tt
all_taken s fs f h (inr (size, e)) = subst (AllTaken s) (sym e) (h size, tt)

pub browse-AllTaken :
    (y : System) (s : StoreState) (category_id : Option Str) (page : ℕ)
    → Copies y
    → current_remote_category s ≡ category_id
    → s.current_page + 1 ≡ page
    → let r = start_remote_fetch y s none category_id page in AllTaken r.0 r.1
browse-AllTaken y s category_id page h e e' =
    let r = start_remote_fetch y s none category_id page in
    let b = start_remote_fetch-Begun y s none category_id page h in
    all_taken r.0 r.1 (remote none category_id page)
      (browse_matches r.0 category_id page (b.same_place ∙ e) (ap (λ n. n + 1) b.same_page ∙ e'))
      b.fetches

pub decode :
    (tab page : ℕ)
    → tab < 2 ^ 8
    → page < 2 ^ 16
    → (ranking_code tab page % 2 ^ 8 ≡ tab) × ((ranking_code tab page / 2 ^ 8) % 2 ^ 16 ≡ page)
unfolding ranking_code
decode tab page h h' = (omega arith, omega arith)

pub ranking-AllTaken :
    (y : System) (s : StoreState) (tab page : ℕ)
    → s.ranking_tab ≡ tab
    → s.current_page + 1 ≡ page
    → tab < 2 ^ 8
    → page < 2 ^ 16
    → let r = start_ranking_fetch y s tab page in AllTaken r.0 r.1
unfolding start_ranking_fetch on_ranking_ready
ranking-AllTaken y s tab page e e' h h' = elim (Bool-cases y.thread) [
  | inl started ↦
      let (tab_back, page_back) = decode tab page h h' in
      rw started (λ result. (ground arith, ground arith, ground arith, ground arith), tt)
  | inr failed ↦ rw failed tt
]

pub open_page-AllTaken :
    (y : System) (s : StoreState) (item : NavItem)
    → Copies y
    → s.active_nav ≡ item
    → s.current_page ≡ 0
    → s.ranking_tab < 2 ^ 8
    → let r = open_page y s item in AllTaken r.0 r.1
unfolding open_page page_of current_remote_category get_category_id_by_nav get_category_id_by_tab
open_page-AllTaken y s nav_recommended h e z b =
    browse-AllTaken y (record s { active_cat = cat_all }) (some (codes "__welcome__")) 1 h (rw e)
      (omega arith)
open_page-AllTaken y s nav_all h e z b =
    browse-AllTaken y (record s { active_cat = cat_all }) none 1 h (rw e) (omega arith)
open_page-AllTaken y s nav_ranking h e z b =
    ranking-AllTaken y s s.ranking_tab (s.current_page + 1) refl refl b (omega arith)
open_page-AllTaken y s nav_updates h e z b = tt
open_page-AllTaken y s nav_cat_office h e z b =
    browse-AllTaken y s (some (codes "07")) 1 h (rw e) (omega arith)
open_page-AllTaken y s nav_cat_system h e z b =
    browse-AllTaken y s (some (codes "08")) 1 h (rw e) (omega arith)
open_page-AllTaken y s nav_cat_dev h e z b =
    browse-AllTaken y s (some (codes "03")) 1 h (rw e) (omega arith)
open_page-AllTaken y s nav_cat_games h e z b =
    browse-AllTaken y s (some (codes "06")) 1 h (rw e) (omega arith)
