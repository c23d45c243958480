-- ===== src/Store.antt =====
-- ui/store_state.h: where the user is in the store.
use Prim.Native.Nat.{ℕ}

pub data NavItem : Type 0 where
  nav_recommended nav_all nav_ranking nav_updates : NavItem
  nav_cat_office nav_cat_system nav_cat_dev nav_cat_games : NavItem

pub data CategoryTab : Type 0 where
  cat_all cat_network cat_social cat_dev cat_video cat_edu : CategoryTab
  cat_games cat_office cat_system cat_lifestyle : CategoryTab

-- The values of the enumerations.
unfoldable pub nav_value : NavItem → ℕ
nav_value nav_recommended = 0
nav_value nav_all = 1
nav_value nav_ranking = 2
nav_value nav_updates = 3
nav_value nav_cat_office = 4
nav_value nav_cat_system = 5
nav_value nav_cat_dev = 6
nav_value nav_cat_games = 7

unfoldable pub tab_value : CategoryTab → ℕ
tab_value cat_all = 0
tab_value cat_network = 1
tab_value cat_social = 2
tab_value cat_dev = 3
tab_value cat_video = 4
tab_value cat_edu = 5
tab_value cat_games = 6
tab_value cat_office = 7
tab_value cat_system = 8
tab_value cat_lifestyle = 9
