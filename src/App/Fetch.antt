-- ===== src/App/Fetch.antt =====
-- ui/main.c: starting the threads that fetch a page, and the triggers that do.
use linyaps_store.Base.{
  ℕ, ◌+◌, ◌*◌, ◌%◌, ◌^◌, Option, none, some, List, [], ◌∷◌, Bool, true, false, ◌&&◌, not, ◌==◌,
  if◌then◌else◌, Str, codes, ℤ, pos, negsuc,
}
use linyaps_store.Store.{NavItem, CategoryTab, cat_all, nav_value, tab_value}
use linyaps_store.Grid.{View, current_items_per_page}
use linyaps_store.App.{
  StoreState, get_category_id_by_nav, get_category_id_by_tab, current_remote_category, recommended,
  all, ranking, updates, category, page_of,
}

-- What a thread is to fetch: keyword, category, page and page size; or the code of a ranking.
pub data Fetch : Type 0 where
  remote : Option Str → Option Str → ℕ → ℕ → Fetch
  rank : ℕ → Fetch

-- What the system answers: `malloc`, `strdup`, `pthread_create`; and the spacings of the widget
-- library.
pub record System : Type 0 where
  pub malloc : Bool
  pub strdup : Str → Bool
  pub thread : Bool
  pub gap : ℕ
  pub margin : ℕ

abbrev pub copy : System → Option Str → Option Str
copy y none = none
copy y (some s) = if y.strdup s then some s else none

abbrev pub view : StoreState → View
view s = record { active_nav = s.active_nav; window_w = s.window_w; window_h = s.window_h }

-- `start_remote_fetch`
unfoldable pub start_remote_fetch :
    System → StoreState → Option Str → Option Str → ℕ → StoreState × List Fetch
start_remote_fetch y s keyword category_id page =
    let size = current_items_per_page y.gap y.margin (some (view s)) true in
    if not y.malloc
    then (record s { loading_remote = false; dirty = true }, [])
    else if y.thread
    then (
      record s { loading_remote = true; dirty = true; last_page_size = size },
      remote (copy y keyword) (copy y category_id) page size ∷ [],
    )
    else (record s { loading_remote = false; dirty = true; last_page_size = size }, [])

-- `(tab_type & 0xFF) | ((page & 0xFFFF) << 8)`
unfoldable pub ranking_code : ℕ → ℕ → ℕ
ranking_code tab page = tab % 2 ^ 8 + (page % 2 ^ 16) * 2 ^ 8

-- `start_ranking_fetch`
unfoldable pub start_ranking_fetch : System → StoreState → ℕ → ℕ → StoreState × List Fetch
start_ranking_fetch y s tab page =
    if y.thread
    then (record s { loading_ranking = true; dirty = true }, rank (ranking_code tab page) ∷ [])
    else (record s { loading_ranking = false; dirty = true }, [])

-- The first fetch of a page that the user opens.
unfoldable pub open_page : System → StoreState → NavItem → StoreState × List Fetch
open_page y s item = elim (page_of item) [
  | recommended ↦
      start_remote_fetch y (record s { active_cat = cat_all }) none (some (codes "__welcome__")) 1
  | all ↦ start_remote_fetch y (record s { active_cat = cat_all }) none none 1
  | ranking ↦ start_ranking_fetch y s s.ranking_tab (s.current_page + 1)
  | updates ↦ (s, [])
  | category ↦ start_remote_fetch y s none (get_category_id_by_nav item) 1
]

-- `store_ui_trigger_change_nav`
unfoldable pub change_nav : System → StoreState → NavItem → StoreState × List Fetch
change_nav y s item =
    if (nav_value s.active_nav == nav_value item) && not s.is_searching
    then (s, [])
    else open_page y
        (record s {
          active_nav = item;
          current_page = 0;
          remote_total = pos 0;
          is_searching = false;
          dirty = true;
        })
        item

-- `store_ui_trigger_change_category_tab`
unfoldable pub change_category_tab : System → StoreState → CategoryTab → StoreState × List Fetch
change_category_tab y s tab =
    if tab_value s.active_cat == tab_value tab
    then (s, [])
    else start_remote_fetch y
        (record s { active_cat = tab; current_page = 0; remote_total = pos 0; dirty = true }) none
        (get_category_id_by_tab tab) 1

-- `store_ui_trigger_change_ranking_tab`
unfoldable pub change_ranking_tab : System → StoreState → ℕ → StoreState × List Fetch
change_ranking_tab y s tab =
    if s.ranking_tab == tab
    then (s, [])
    else start_ranking_fetch y (record s { ranking_tab = tab; current_page = 0; dirty = true }) tab
        1

-- `store_ui_trigger_clear_search`
unfoldable pub clear_search : System → StoreState → StoreState × List Fetch
clear_search y s =
    let s' = record s { search_buf = []; is_searching = false; dirty = true } in
    elim (page_of s.active_nav) [
      | recommended ↦ start_remote_fetch y s' none (some (codes "__welcome__")) 1
      | all ↦ start_remote_fetch y s' none (get_category_id_by_tab s.active_cat) 1
      | ranking ↦ start_ranking_fetch y s' s.ranking_tab (s.current_page + 1)
      | updates ↦ (s', [])
      | category ↦ start_remote_fetch y s' none (get_category_id_by_nav s.active_nav) 1
    ]

-- `store_ui_trigger_change_ranking_page`
unfoldable pub change_ranking_page : System → StoreState → ℤ → StoreState × List Fetch
change_ranking_page y s (negsuc n) = (s, [])
change_ranking_page y s (pos page) =
    start_ranking_fetch y
      (record s {
        current_page = page;
        dirty = true;
        ranking_list = none;
        ranking_count = elim s.ranking_list [ none ↦ s.ranking_count | some l ↦ 0 ];
      })
      s.ranking_tab (page + 1)

-- `store_ui_trigger_remote_page`
unfoldable pub remote_page : System → StoreState → ℤ → StoreState × List Fetch
remote_page y s (negsuc n) = (s, [])
remote_page y s (pos page) =
    let s' = record s { current_page = page } in
    start_remote_fetch y s' none (current_remote_category s') (page + 1)
