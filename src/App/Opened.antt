-- ===== src/App/Opened.antt =====
-- Every fetch that the user starts is one whose answer the store takes; but for a search that is
-- cleared on a later page.
use linyaps_store.Base.{
  ℕ, suc, ◌+◌, ◌^◌, ◌<◌, ◌≡◌, refl, ap, ◌∙◌, none, some, [], ◌∷◌, Bool, true, false, not, ◌&&◌,
  ◌==◌, if◌then◌else◌, Str, ℤ, pos, negsuc, length, ltb, Bool-cases, inl, inr, arith,
}
use linyaps_store.Grid.{current_items_per_page}
use linyaps_store.Store.{NavItem, nav_all, CategoryTab, nav_value, tab_value}
use linyaps_store.App.{
  StoreState, Packages, get_category_id_by_tab, current_remote_category, page_of,
}
use linyaps_store.App.Fetch.{
  view, System, remote, change_nav, change_category_tab, clear_search, remote_page,
  start_remote_fetch,
}
use linyaps_store.App.Events.{
  RemoteResult, matches, fetch_remote_thread, on_remote_ready, submit, press, handle_key, Key,
  backspace, escape, return, other_key,
}
use linyaps_store.App.Answered.{
  Copies, copy_lem, AllTaken, all_taken, search_matches, start_remote_fetch-Begun,
  open_page-AllTaken, browse-AllTaken,
}

-- With memory for strings and a tab of the rankings below 256, opening a page of the sidebar starts no
-- fetch but one whose answer the store takes, if nothing else happens before it arrives: a page of
-- the catalogue matches the page that is then on show, and a page of a ranking is shown.
pub change_nav-AllTaken :
    (y : System) (s : StoreState) (item : NavItem)
    → Copies y
    → s.ranking_tab < 2 ^ 8
    → let r = change_nav y s item in AllTaken r.0 r.1
unfolding change_nav
change_nav-AllTaken y s item h b =
    elim (Bool-cases ((nav_value s.active_nav == nav_value item) && not s.is_searching)) [
      | inl same_page ↦ rw same_page tt
      | inr other ↦
          let s' = record s {
            active_nav = item;
            current_page = 0;
            remote_total = pos 0;
            is_searching = false;
            dirty = true;
          } in
          rw other (open_page-AllTaken y s' item h refl refl b)
    ]

-- With memory for strings, choosing a category in the tab bar of the page of all packages starts no
-- fetch but one whose answer the store takes, if nothing else happens before it arrives.
pub change_category_tab-AllTaken :
    (y : System) (s : StoreState) (tab : CategoryTab)
    → Copies y
    → s.active_nav ≡ nav_all
    → let r = change_category_tab y s tab in AllTaken r.0 r.1
unfolding change_category_tab current_remote_category
change_category_tab-AllTaken y s tab h e =
    elim (Bool-cases (tab_value s.active_cat == tab_value tab)) [
      | inl same_tab ↦ rw same_tab tt
      | inr other ↦
          let s' = record s {
            active_cat = tab;
            current_page = 0;
            remote_total = pos 0;
            dirty = true;
          } in
          rw other (browse-AllTaken y s' (get_category_id_by_tab tab) 1 h (rw e) (omega arith))
    ]

-- With memory for strings, turning to another page of a category starts no fetch but one whose answer
-- the store takes, if nothing else happens before it arrives.
pub remote_page-AllTaken :
    (y : System) (s : StoreState) (page : ℤ)
    → Copies y
    → let r = remote_page y s page in AllTaken r.0 r.1
unfolding remote_page
remote_page-AllTaken y s (negsuc n) h = tt
remote_page-AllTaken y s (pos page) h =
    let s' = record s { current_page = page } in
    browse-AllTaken y s' (current_remote_category s') (page + 1) h refl refl

submitted :
    (y : System) (s : StoreState) (b : Str)
    → Copies y
    → s.search_buf ≡ b
    → let r = submit y s b in AllTaken (record r.0 { search_focused = false; dirty = true }) r.1
unfolding submit matches
submitted y s [] h e = tt
submitted y s (c ∷ cs) h e =
    let s' = record s { current_page = 0 } in
    let b = start_remote_fetch-Begun y s' (some (c ∷ cs)) none 1 h in
    let r = submit y s (c ∷ cs) in
    let after = record r.0 { search_focused = false; dirty = true } in
    all_taken after r.1 (remote (some (c ∷ cs)) none 1)
      (search_matches after c cs none 1 (b.same_text ∙ e)
        (ap (λ n. n + 1) b.same_page ∙ omega arith))
      b.fetches

press-AllTaken :
    (y : System) (s : StoreState) (key : Key) → Copies y → let r = press y s key in AllTaken r.0 r.1
unfolding press
press-AllTaken y s backspace h = elim (Bool-cases (ltb 0 (length s.search_buf))) [
  | inl text ↦ rw text tt
  | inr nothing ↦ rw nothing tt
]
press-AllTaken y s escape h = tt
press-AllTaken y s return h = submitted y s s.search_buf h refl
press-AllTaken y s other_key h = tt

-- With memory for strings, a key starts no fetch but one whose answer the store takes, if nothing
-- else happens before it arrives.
pub handle_key-AllTaken :
    (y : System) (s : StoreState) (key : Key)
    → Copies y
    → let r = handle_key y s key in AllTaken r.0 r.1
unfolding handle_key
handle_key-AllTaken y s key h = by_focus s.search_focused
  where
    by_focus : (f : Bool) → let r = if f then press y s key else (s, []) in AllTaken r.0 r.1
    by_focus true = press-AllTaken y s key h
    by_focus false = tt

-- A result of another page is dropped.
other_page :
    (y : System) (s : StoreState) (r : RemoteResult)
    → (s.current_page + 1 == r.page) ≡ false
    → on_remote_ready y s (some r) ≡ (s, [])
unfolding on_remote_ready matches
other_page y s r h = ground arith

clear_search_page :
    (y : System) (s : StoreState)
    → s.active_nav ≡ nav_all
    → y.malloc ≡ true
    → y.thread ≡ true
    → (clear_search y s).0.current_page ≡ s.current_page
unfolding clear_search page_of start_remote_fetch
clear_search_page y s e memory started = rw (e, memory, started)

-- Clearing a search on a later page of all packages, with memory and a thread, starts one fetch: of
-- page 1 of the category on show, without a keyword. It leaves the store loading, and whatever
-- answers this fetch, if it comes next, changes nothing and starts nothing.
pub clear_search-stuck :
    (y : System) (s : StoreState) (n : ℕ)
    → y.malloc ≡ true
    → y.thread ≡ true
    → Copies y
    → s.active_nav ≡ nav_all
    → s.current_page ≡ suc n
    → let r = clear_search y s in
      ((size : ℕ) × (r.1 ≡ remote none (get_category_id_by_tab s.active_cat) 1 size ∷ []))
      × (r.0.loading_remote ≡ true)
      × ((list : Packages) (count : ℕ) (total : ℤ)
          → on_remote_ready y r.0 (
              some
                (fetch_remote_thread list count total none (get_category_id_by_tab s.active_cat) 1))
            ≡ (r.0, []))
unfolding clear_search page_of start_remote_fetch fetch_remote_thread
clear_search-stuck y s n memory started copies e e' = (
  (
    current_items_per_page y.gap y.margin
        (some (view (record s { search_buf = []; is_searching = false; dirty = true }))) true,
    rw (e, memory, started, copy_lem y copies (get_category_id_by_tab s.active_cat)),
  ),
  rw (e, memory, started),
  λ list count total.
      let r = fetch_remote_thread list count total none (get_category_id_by_tab s.active_cat) 1 in
      other_page y (clear_search y s).0 r
        (later (clear_search y s).0.current_page (clear_search_page y s e memory started ∙ e')),
)
  where
    later : (page : ℕ) → page ≡ suc n → (page + 1 == 1) ≡ false
    later page p = ground arith
