-- ===== src/Grid.antt =====
-- The grid of cards: `app_grid_spec` of ui/store_ui.c, which the views draw by, and
-- `current_items_per_page` of ui/main.c, which pages are fetched by. `DS_SPACE_3` and `DS_SPACE_4` of
-- the widget library are the arguments `gap` and `margin`. A window has no negative size; a
-- difference that is negative in C is 0 here, which the clamps raise all the same.
pub mod Best
pub mod Agree
pub mod Bounds
mod Examples
use linyaps_store.Base.{
  ℕ, zero, suc, ◌+◌, ◌-◌, ◌*◌, ◌/◌, Bool, true, false, Option, none, some, ltb, if◌then◌else◌,
}
use linyaps_store.Store.{
  NavItem, nav_recommended, nav_all, nav_ranking, nav_updates, nav_cat_office, nav_cat_system,
  nav_cat_dev, nav_cat_games,
}

-- `SIDEBAR_W`, `TITLEBAR_H`, `CONTENT_HEADER_H`, `GRID_PAGE_H`, `CARD_H`
abbrev pub sidebar_w : ℕ
sidebar_w = 180

abbrev pub titlebar_h : ℕ
titlebar_h = 52

abbrev pub content_header_h : ℕ
content_header_h = 44

abbrev pub grid_page_h : ℕ
grid_page_h = 40

abbrev pub card_h : ℕ
card_h = 88

-- `GRID_MIN_CARD_W`, `GRID_TARGET_CARD_W`, `GRID_MAX_CARD_W`, `GRID_MAX_COLS`
abbrev pub grid_min_card_w : ℕ
grid_min_card_w = 320

abbrev pub grid_target_card_w : ℕ
grid_target_card_w = 380

abbrev pub grid_max_card_w : ℕ
grid_max_card_w = 480

abbrev pub grid_max_cols : ℕ
grid_max_cols = 6

pub record AppGridSpec : Type 0 where
  pub cols : ℕ
  pub rows : ℕ
  pub card_w : ℕ
  pub items_per_page : ℕ

unfoldable pub clamp_int : ℕ → ℕ → ℕ → ℕ
clamp_int v min max = if ltb v min then min else if ltb max v then max else v

abbrev pub at_least : ℕ → ℕ → ℕ
at_least min v = if ltb v min then min else v

unfoldable pub content_width : ℕ → ℕ → ℕ
content_width margin window_w = at_least 1 (window_w - sidebar_w - margin * 2)

unfoldable pub content_height : ℕ → ℕ → ℕ → Bool → ℕ
content_height margin window_h reserve_h has_pagination =
    let h = window_h - titlebar_h - reserve_h - margin * 2 in
    at_least card_h (if has_pagination then h - grid_page_h else h)

unfoldable pub max_fit_cols : ℕ → ℕ → ℕ
unfolding clamp_int
max_fit_cols gap content_w = clamp_int ((content_w + gap) / (grid_min_card_w + gap)) 1 grid_max_cols

-- `clamp_int((rows_h + gap) / (CARD_H + gap), 1, 12)`
unfoldable pub fit_rows : ℕ → ℕ → ℕ
unfolding clamp_int
fit_rows gap content_h = clamp_int ((content_h + gap) / (card_h + gap)) 1 12

-- `(content_w - gap * (cols - 1)) / cols`
unfoldable pub card_width : ℕ → ℕ → ℕ → ℕ
card_width gap content_w cols = (content_w - gap * (cols - 1)) / cols

-- `iabs_int(w - GRID_TARGET_CARD_W)`, and the penalty of a card that is too wide.
unfoldable pub score : ℕ → ℕ
score w =
    (if ltb w grid_target_card_w then grid_target_card_w - w else w - grid_target_card_w)
    + (if ltb grid_max_card_w w then (w - grid_max_card_w) * 2 else 0)

-- `best_cols`, `best_w` and `best_score`
pub record Choice : Type 0 where
  pub cols : ℕ
  pub width : ℕ
  pub cost : ℕ

-- The body of the loop of `app_grid_spec`.
unfoldable pub consider : ℕ → ℕ → ℕ → Choice → Choice
consider gap content_w cols best =
    let w = card_width gap content_w cols in
    if ltb (score w) best.cost then (record { cols = cols; width = w; cost = score w }) else best

-- Its loop, from `cols` on, for as many rounds as the first argument says.
unfoldable pub choose : ℕ → ℕ → ℕ → ℕ → Choice → Choice
choose zero gap content_w cols best = best
choose (suc n) gap content_w cols best =
    choose n gap content_w (cols + 1) (consider gap content_w cols best)

abbrev pub first_choice : ℕ → Choice
first_choice content_w = record { cols = 1; width = content_w; cost = 1000000 }

-- `app_grid_spec`, with the size of the window as arguments.
unfoldable pub app_grid_spec : (gap margin window_w window_h reserve_h : ℕ) → Bool → AppGridSpec
app_grid_spec gap margin window_w window_h reserve_h has_pagination =
    let content_w = content_width margin window_w in
    let best = choose (max_fit_cols gap content_w) gap content_w 1 (first_choice content_w) in
    let rows = fit_rows gap (content_height margin window_h reserve_h has_pagination) in
    record { cols = best.cols; rows = rows; card_w = best.width; items_per_page = best.cols * rows }

-- The body of the loop of `current_items_per_page`, which keeps the columns only.
unfoldable pub reconsider : ℕ → ℕ → ℕ → ℕ → ℕ
reconsider gap content_w cols best =
    if ltb (score (card_width gap content_w cols)) (score (card_width gap content_w best))
    then cols
    else best

unfoldable pub choose_cols : ℕ → ℕ → ℕ → ℕ → ℕ → ℕ
choose_cols zero gap content_w cols best = best
choose_cols (suc n) gap content_w cols best =
    choose_cols n gap content_w (cols + 1) (reconsider gap content_w cols best)

-- The height that `current_items_per_page` reserves for the header of the content.
unfoldable pub reserve_of : NavItem → ℕ
reserve_of nav_recommended = content_header_h
reserve_of nav_all = content_header_h
reserve_of nav_ranking = 0
reserve_of nav_updates = 0
reserve_of nav_cat_office = content_header_h
reserve_of nav_cat_system = content_header_h
reserve_of nav_cat_dev = content_header_h
reserve_of nav_cat_games = content_header_h

-- What `current_items_per_page` reads of the store.
pub record View : Type 0 where
  pub active_nav : NavItem
  pub window_w : ℕ
  pub window_h : ℕ

-- `current_items_per_page`
unfoldable pub current_items_per_page : (gap margin : ℕ) → Option View → Bool → ℕ
current_items_per_page gap margin none has_pagination = 30
current_items_per_page gap margin (some s) has_pagination =
    let content_w = content_width margin s.window_w in
    let cols = choose_cols (max_fit_cols gap content_w) gap content_w 1 1 in
    let content_h = content_height margin s.window_h (reserve_of s.active_nav) has_pagination in
    let items = cols * fit_rows gap content_h in if ltb 0 items then items else 30
