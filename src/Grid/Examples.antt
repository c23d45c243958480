-- ===== src/Grid/Examples.antt =====
-- The grid of the window that the program opens, for gaps of 12 and margins of 16, and the theorems
-- at these inputs.
use linyaps_store.Base.{◌≡◌, refl, some, true, false, arith}
use linyaps_store.Store.{NavItem, nav_all, nav_ranking}
use linyaps_store.Grid.{
  View, app_grid_spec, current_items_per_page, card_width, score, consider, choose, reconsider,
  choose_cols, max_fit_cols, content_width, content_height, fit_rows, reserve_of, clamp_int,
}
use linyaps_store.Grid.Bounds.{IsGrid, app_grid_spec-IsGrid}
use linyaps_store.Grid.Agree.{app_grid_spec-current_items_per_page}

-- What the tests compute with.
program : Unit {0}
unfolding app_grid_spec current_items_per_page card_width score consider choose reconsider
    choose_cols max_fit_cols content_width content_height fit_rows reserve_of clamp_int
program = tt

three_columns :
    app_grid_spec 12 16 1280 720 44 true
    ≡ record { cols = 3; rows = 5; card_w = 348; items_per_page = 15 }
unfolding program
three_columns = refl

abbrev opened : NavItem → View
opened nav = record { active_nav = nav; window_w = 1280; window_h = 720 }

-- The ranking page reserves the height of a header that its fetch does not reserve.
ranking_page : current_items_per_page 12 16 (some (opened nav_ranking)) true ≡ 18
unfolding program
ranking_page = refl

app_grid_spec-IsGrid_example :
    IsGrid 12
      (content_width 16 1280)
      (content_height 16 720 44 false)
      (app_grid_spec 12 16 1280 720 44 false)
app_grid_spec-IsGrid_example = app_grid_spec-IsGrid 12 16 1280 720 44 false (omega arith)

app_grid_spec-current_items_per_page_example :
    (app_grid_spec 12 16 1280 720 (reserve_of nav_all) true).items_per_page
    ≡ current_items_per_page 12 16 (some (opened nav_all)) true
app_grid_spec-current_items_per_page_example =
    app_grid_spec-current_items_per_page 12 16 (opened nav_all) true (omega arith)
