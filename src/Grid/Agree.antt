-- ===== src/Grid/Agree.antt =====
-- The two layouts agree: a page is fetched with as many packages as the grid has room for.
use mathlib.Core.Path.{subst}
use linyaps_store.Base.{
  ℕ, zero, suc, ◌+◌, ◌*◌, ◌/◌, ◌≤◌, ◌<◌, ◌≡◌, refl, sym, ap, ◌∙◌, ltb, Bool, some, Bool-cases, inl,
  inr, arith,
}
use linyaps_store.Grid.{
  Choice, View, app_grid_spec, current_items_per_page, card_width, score, consider, choose,
  first_choice, reconsider, choose_cols, max_fit_cols, content_width, content_height, fit_rows,
  reserve_of, clamp_int,
}
use linyaps_store.Grid.Best.{
  card_width_one, first_round, max_content_w, IsBest, choose-IsBest_first,
}

-- One round of both loops.
in_step :
    (gap content_w cols : ℕ) (b : Choice)
    → b.cost ≡ score (card_width gap content_w b.cols)
    → ((consider gap content_w cols b).cols ≡ reconsider gap content_w cols b.cols)
      × ((consider gap content_w cols b).cost
          ≡ score (card_width gap content_w (consider gap content_w cols b).cols))
unfolding consider reconsider
in_step gap content_w cols b e =
    elim (Bool-cases (ltb (score (card_width gap content_w cols)) b.cost)) [
      | inl better ↦ (ground arith, ground arith)
      | inr worse ↦ (ground arith, ground arith)
    ]

choose-choose_cols :
    (n gap content_w cols : ℕ) (b : Choice)
    → b.cost ≡ score (card_width gap content_w b.cols)
    → (choose n gap content_w cols b).cols ≡ choose_cols n gap content_w cols b.cols
unfolding choose choose_cols
choose-choose_cols zero gap content_w cols b e = refl
choose-choose_cols (suc n) gap content_w cols b e =
    let (same_cols, e') = in_step gap content_w cols b e in
    choose-choose_cols n gap content_w (cols + 1) (consider gap content_w cols b) e'
    ∙ ap (choose_cols n gap content_w (cols + 1)) same_cols

reconsider_same : (gap content_w cols : ℕ) → reconsider gap content_w cols cols ≡ cols
unfolding reconsider
reconsider_same gap content_w cols = ground arith

pub same_cols :
    (n gap content_w : ℕ)
    → content_w ≤ max_content_w
    → 1 ≤ n
    → (choose n gap content_w 1 (first_choice content_w)).cols ≡ choose_cols n gap content_w 1 1
unfolding choose choose_cols
same_cols zero gap content_w small some_round = elim some_round [ ]
same_cols (suc n) gap content_w small some_round =
    let b : Choice = record { cols = 1; width = content_w; cost = score content_w } in
    ap (λ c. (choose n gap content_w 2 c).cols) (first_round gap content_w small)
    ∙ choose-choose_cols n gap content_w 2 b (ap score (sym (card_width_one gap content_w)))
    ∙ ap (choose_cols n gap content_w 2) (sym (reconsider_same gap content_w 1))

pub clamp_int-bounds :
    (v min max : ℕ) → min ≤ max → (min ≤ clamp_int v min max) × (clamp_int v min max ≤ max)
unfolding clamp_int
clamp_int-bounds v min max h = (ground arith, ground arith)

pub content_width-le :
    (margin window_w : ℕ) → window_w ≤ max_content_w → content_width margin window_w ≤ max_content_w
unfolding content_width
content_width-le margin window_w h = ground arith

pub max_fit_cols-bounds :
    (gap content_w : ℕ) → (1 ≤ max_fit_cols gap content_w) × (max_fit_cols gap content_w ≤ 6)
unfolding max_fit_cols
max_fit_cols-bounds gap content_w =
    clamp_int-bounds ((content_w + gap) / (320 + gap)) 1 6 (omega arith)

pub fit_rows-bounds :
    (gap content_h : ℕ) → (1 ≤ fit_rows gap content_h) × (fit_rows gap content_h ≤ 12)
unfolding fit_rows
fit_rows-bounds gap content_h = clamp_int-bounds ((content_h + gap) / (88 + gap)) 1 12 (omega arith)

pub choice-IsBest :
    (n gap content_w : ℕ)
    → content_w ≤ max_content_w
    → 1 ≤ n
    → IsBest gap content_w (1 + n) (choose n gap content_w 1 (first_choice content_w))
choice-IsBest zero gap content_w small h = elim h [ ]
choice-IsBest (suc n) gap content_w small h =
    subst (λ m. IsBest gap content_w m (choose (suc n) gap content_w 1 (first_choice content_w)))
      (omega arith) (choose-IsBest_first n gap content_w small)

pos_mul : (a b : ℕ) → 1 ≤ a → 1 ≤ b → 0 < a * b
pos_mul zero b h k = elim h [ ]
pos_mul (suc a) zero h k = elim k [ ]
pos_mul (suc a) (suc b) h k = omega arith

-- For a window that is at most 300000 wide, the number of packages that `current_items_per_page`
-- has fetched for a page is the number of places in the grid that `app_grid_spec` lays out with the
-- same height reserved.
pub app_grid_spec-current_items_per_page :
    (gap margin : ℕ) (s : View) (has_pagination : Bool)
    → s.window_w ≤ max_content_w
    → (app_grid_spec gap margin s.window_w s.window_h
        (reserve_of s.active_nav)
        has_pagination).items_per_page
      ≡ current_items_per_page gap margin (some s) has_pagination
unfolding app_grid_spec current_items_per_page
app_grid_spec-current_items_per_page gap margin s has_pagination h =
    let cw = content_width margin s.window_w in
    let small = content_width-le margin s.window_w h in
    let n = max_fit_cols gap cw in
    let rows =
      fit_rows gap (content_height margin s.window_h (reserve_of s.active_nav) has_pagination) in
    let (some_round, _) = max_fit_cols-bounds gap cw in
    let best = choice-IsBest n gap cw small some_round in
    let e = same_cols n gap cw small some_round in
    let (some_row, _) =
      fit_rows-bounds gap
        (content_height margin s.window_h (reserve_of s.active_nav) has_pagination) in
    let some_item =
      pos_mul (choose_cols n gap cw 1 1) rows (omega (arith, e, best.some_cols)) some_row in
    ap (λ c. c * rows) e ∙ ground arith
