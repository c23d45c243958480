-- ===== src/App/Examples.antt =====
-- The store at work, and the theorems at concrete states.
use linyaps_store.Base.{
  ℕ, ◌+◌, ◌≡◌, refl, none, some, List, [], ◌∷◌, true, false, codes, pos, ℤ, arith,
}
use linyaps_store.Types.{blank_info}
use linyaps_store.Store.{nav_all, nav_ranking}
use linyaps_store.App.{StoreState, Packages, store_state_init, get_category_id_by_tab}
use linyaps_store.App.Fetch.{
  System, remote, rank, ranking_code, change_nav, clear_search, change_ranking_page,
}
use linyaps_store.App.Events.{
  RemoteResult, fetch_remote_thread, on_remote_ready, on_ranking_ready, handle_key, return,
}
use linyaps_store.App.Answered.{AllTaken}
use linyaps_store.App.Opened.{change_nav-AllTaken, handle_key-AllTaken, clear_search-stuck}
use linyaps_store.App.Buffer.{
  FitsBuffer, Input, typed, key, after_input, after_input-FitsBuffer, change_ranking_page-shown,
}

abbrev system : System
system = record { malloc = true; strdup = λ s. true; thread = true; gap = 12; margin = 16 }

change_nav-AllTaken_example :
    let r = change_nav system store_state_init nav_ranking in AllTaken r.0 r.1
change_nav-AllTaken_example =
    change_nav-AllTaken system store_state_init nav_ranking (λ s. refl) (omega arith)

abbrev everything : StoreState
everything = record store_state_init {
  active_nav = nav_all;
  search_focused = true;
  search_buf = codes "vim";
}

handle_key-AllTaken_example : let r = handle_key system everything return in AllTaken r.0 r.1
handle_key-AllTaken_example = handle_key-AllTaken system everything return (λ s. refl)

abbrev third_page : StoreState
third_page = record everything { current_page = 2; is_searching = true }

clear_search-stuck_example :
    let r = clear_search system third_page in
    ((size : ℕ) × (r.1 ≡ remote none (get_category_id_by_tab third_page.active_cat) 1 size ∷ []))
    × (r.0.loading_remote ≡ true)
    × ((list : Packages) (count : ℕ) (total : ℤ)
        → on_remote_ready system r.0 (
            some (
              fetch_remote_thread list count total none
                (get_category_id_by_tab third_page.active_cat)
                1))
          ≡ (r.0, []))
clear_search-stuck_example = clear_search-stuck system third_page 1 refl refl (λ s. refl) refl refl

abbrev inputs : List Input
inputs = typed (codes " 9") ∷ key return ∷ []

after_input-FitsBuffer_example : FitsBuffer (after_input system everything inputs)
after_input-FitsBuffer_example = after_input-FitsBuffer system everything inputs (omega arith)

abbrev newest : RemoteResult
newest = record {
  list = some (some blank_info ∷ []);
  count = 1;
  total = pos 60;
  page = 5;
  is_search = false;
  data_str = none;
}

abbrev ranked : StoreState
ranked = record store_state_init { active_nav = nav_ranking }

change_ranking_page-shown_example :
    let s' = (change_ranking_page system ranked (pos 4)).0 in
    let code = ranking_code 0 (4 + 1) in
    ((change_ranking_page system ranked (pos 4)).1 ≡ rank code ∷ [])
    × ((on_ranking_ready s' (some newest) code).ranking_list ≡ newest.list)
    × ((on_ranking_ready s' (some newest) code).ranking_count ≡ 1)
    × ((on_ranking_ready s' (some newest) code).loading_ranking ≡ false)
change_ranking_page-shown_example =
    change_ranking_page-shown system ranked 4 newest refl (omega arith) (omega arith)
