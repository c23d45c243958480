-- ===== src/App.antt =====
-- The pages of the store: the part of `StoreState` (ui/store_state.h) that they use, and the
-- triggers and handlers of ui/main.c that change it. A thread that is started is recorded as the
-- fetch that it makes; an event that it posts is the argument of a handler.
pub mod Fetch
pub mod Events
pub mod Answered
pub mod Opened
pub mod Buffer
mod Examples
use linyaps_store.Base.{ℕ, Option, none, some, List, Bool, true, false, Str, codes, ℤ, pos}
use linyaps_store.Types.{PackageInfo}
use linyaps_store.Store.{
  NavItem, nav_recommended, nav_all, nav_ranking, nav_updates, nav_cat_office, nav_cat_system,
  nav_cat_dev, nav_cat_games, CategoryTab, cat_all, cat_network, cat_social, cat_dev, cat_video,
  cat_edu, cat_games, cat_office, cat_system, cat_lifestyle,
}

abbrev pub Packages : Type 0
Packages = Option (List (Option PackageInfo))

-- The atomic flags are Booleans; a string buffer is the string in it.
pub record StoreState : Type 0 where
  pub active_nav : NavItem
  pub active_cat : CategoryTab
  pub search_buf : Str
  pub last_search_keyword : Str
  pub search_focused : Bool
  pub is_searching : Bool
  pub search_results : Packages
  pub search_count : ℕ
  pub remote_total : ℤ
  pub loading_remote : Bool
  pub need_refetch_on_load_complete : Bool
  pub last_page_size : ℕ
  pub last_page_data_count : ℕ
  pub window_w : ℕ
  pub window_h : ℕ
  pub ranking_tab : ℕ
  pub loading_ranking : Bool
  pub ranking_list : Packages
  pub ranking_count : ℕ
  pub ranking_total : ℤ
  pub current_page : ℕ
  pub dirty : Bool

-- `store_state_init`, of these fields.
abbrev pub store_state_init : StoreState
store_state_init = record {
  active_nav = nav_recommended;
  active_cat = cat_all;
  search_buf = List.[];
  last_search_keyword = List.[];
  search_focused = false;
  is_searching = false;
  search_results = none;
  search_count = 0;
  remote_total = pos 0;
  loading_remote = false;
  need_refetch_on_load_complete = false;
  last_page_size = 0;
  last_page_data_count = 0;
  window_w = 1280;
  window_h = 720;
  ranking_tab = 0;
  loading_ranking = false;
  ranking_list = none;
  ranking_count = 0;
  ranking_total = pos 0;
  current_page = 0;
  dirty = true;
}

unfoldable pub get_category_id_by_nav : NavItem → Option Str
get_category_id_by_nav nav_recommended = some (codes "__welcome__")
get_category_id_by_nav nav_all = none
get_category_id_by_nav nav_ranking = none
get_category_id_by_nav nav_updates = none
get_category_id_by_nav nav_cat_office = some (codes "07")
get_category_id_by_nav nav_cat_system = some (codes "08")
get_category_id_by_nav nav_cat_dev = some (codes "03")
get_category_id_by_nav nav_cat_games = some (codes "06")

unfoldable pub get_category_id_by_tab : CategoryTab → Option Str
get_category_id_by_tab cat_office = some (codes "07")
get_category_id_by_tab cat_system = some (codes "08")
get_category_id_by_tab cat_dev = some (codes "03")
get_category_id_by_tab cat_games = some (codes "06")
get_category_id_by_tab cat_all = none
get_category_id_by_tab cat_network = none
get_category_id_by_tab cat_social = none
get_category_id_by_tab cat_video = none
get_category_id_by_tab cat_edu = none
get_category_id_by_tab cat_lifestyle = none

-- `current_remote_category`
unfoldable pub current_remote_category : StoreState → Option Str
unfolding get_category_id_by_nav get_category_id_by_tab
current_remote_category s = elim s.active_nav [
  | nav_recommended ↦ some (codes "__welcome__")
  | nav_all ↦ get_category_id_by_tab s.active_cat
  | nav_ranking ↦ none
  | nav_updates ↦ none
  | nav ↦ get_category_id_by_nav nav
]

-- The kinds of page by which the code branches on the navigation: a category of the sidebar, or one
-- of the others.
pub data Page : Type 0 where
  recommended all ranking updates category : Page

unfoldable pub page_of : NavItem → Page
page_of nav_recommended = recommended
page_of nav_all = all
page_of nav_ranking = ranking
page_of nav_updates = updates
page_of nav_cat_office = category
page_of nav_cat_system = category
page_of nav_cat_dev = category
page_of nav_cat_games = category
