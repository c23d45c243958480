-- ===== src/Grid/Bounds.antt =====
-- The grid fits into the window, and no other number of columns gives better cards.
use mathlib.Core.Path.{subst}
use native.Mathlib.Nat.{le-div_iff_mul-le}
use linyaps_store.Base.{
  ℕ, zero, suc, ◌+◌, ◌-◌, ◌*◌, ◌/◌, ◌≤◌, ◌≡◌, ◌⊎◌, refl, sym, ltb, Bool, inl, inr, arith,
  Bool-cases,
}
use linyaps_store.Grid.{
  AppGridSpec, app_grid_spec, card_width, score, max_fit_cols, content_width, content_height,
  fit_rows, clamp_int,
}
use linyaps_store.Grid.Best.{max_content_w}
use linyaps_store.Grid.Agree.{choice-IsBest, content_width-le, max_fit_cols-bounds, fit_rows-bounds}

-- More than one column only if the smallest cards fit.
max_fit_cols_lem :
    (gap content_w c : ℕ)
    → c ≤ max_fit_cols gap content_w
    → (c ≤ 1) ⊎ (c * (320 + gap) ≤ content_w + gap)
unfolding max_fit_cols clamp_int
max_fit_cols_lem gap content_w c h =
    let q = (content_w + gap) / (320 + gap) in
    elim (Bool-cases (ltb q 1)) [
      | inl low ↦ inl (ground arith)
      | inr high ↦ inr ((le-div_iff_mul-le (omega arith)).0 (ground arith))
    ]

-- `c` columns of cards and the gaps between them are not wider than the content.
row_fits :
    (gap content_w c : ℕ)
    → 1 ≤ c
    → c ≤ 6
    → (c ≤ 1) ⊎ (c * (320 + gap) ≤ content_w + gap)
    → (c * card_width gap content_w c + gap * (c - 1) ≤ content_w)
      × (2 ≤ c → 320 ≤ card_width gap content_w c)
unfolding card_width
row_fits gap w zero lo hi h = elim lo [ ]
row_fits gap w (suc zero) lo hi h = (omega arith, λ k. omega arith)
row_fits gap w (suc (suc c)) lo hi (inl h) = absurd (omega arith)
row_fits gap w (suc (suc zero)) lo hi (inr h) = (omega arith, λ k. omega arith)
row_fits gap w (suc (suc (suc zero))) lo hi (inr h) = (omega arith, λ k. omega arith)
row_fits gap w (suc (suc (suc (suc zero)))) lo hi (inr h) = (omega arith, λ k. omega arith)
row_fits gap w (suc (suc (suc (suc (suc zero))))) lo hi (inr h) = (omega arith, λ k. omega arith)
row_fits gap w (suc (suc (suc (suc (suc (suc zero)))))) lo hi (inr h) =
    (omega arith, λ k. omega arith)
row_fits gap w (suc (suc (suc (suc (suc (suc (suc c))))))) lo hi h = absurd (omega arith)

-- What `app_grid_spec` promises of a grid in content of this width and height.
pub record IsGrid (gap content_w content_h : ℕ) (g : AppGridSpec) : Type 0 where
  pub some_cols : (1 ≤ g.cols) × (g.cols ≤ 6)
  pub some_rows : (1 ≤ g.rows) × (g.rows ≤ 12)
  pub items : g.items_per_page ≡ g.cols * g.rows
  pub fits : g.cols * g.card_w + gap * (g.cols - 1) ≤ content_w
  pub not_small : 2 ≤ g.cols → 320 ≤ g.card_w
  pub low : (g.rows ≤ 1) ⊎ (g.rows * (88 + gap) ≤ content_h + gap)
  pub best :
      (c : ℕ)
      → 1 ≤ c
      → c ≤ max_fit_cols gap content_w
      → score g.card_w ≤ score (card_width gap content_w c)

fit_rows_lem :
    (gap content_h : ℕ)
    → (fit_rows gap content_h ≤ 1) ⊎ (fit_rows gap content_h * (88 + gap) ≤ content_h + gap)
unfolding fit_rows clamp_int
fit_rows_lem gap content_h =
    let q = (content_h + gap) / (88 + gap) in
    elim (Bool-cases (ltb q 1)) [
      | inl less ↦ inl (ground arith)
      | inr more ↦ inr ((le-div_iff_mul-le (omega arith)).0 (ground arith))
    ]

-- For a window that is at most 300000 wide, `app_grid_spec` lays out between 1 and 6 columns and
-- between 1 and 12 rows of cards that fit into the content with their gaps (a single row may be too
-- high). Cards side by side are no narrower than the smallest, and no number of columns that fits
-- has a better width of a card.
pub app_grid_spec-IsGrid :
    (gap margin window_w window_h reserve_h : ℕ) (has_pagination : Bool)
    → window_w ≤ max_content_w
    → IsGrid gap
        (content_width margin window_w)
        (content_height margin window_h reserve_h has_pagination)
        (app_grid_spec gap margin window_w window_h reserve_h has_pagination)
unfolding app_grid_spec
app_grid_spec-IsGrid gap margin window_w window_h reserve_h has_pagination h =
    let cw = content_width margin window_w in
    let n = max_fit_cols gap cw in
    let b =
      choice-IsBest n gap cw (content_width-le margin window_w h) (max_fit_cols-bounds gap cw).0 in
    let g = app_grid_spec gap margin window_w window_h reserve_h has_pagination in
    let (_, few) = max_fit_cols-bounds gap cw in
    let within : g.cols ≤ n = omega (arith, b.below) in
    let (fits, wide) =
      row_fits gap cw g.cols b.some_cols (omega arith) (max_fit_cols_lem gap cw g.cols within) in
    record {
      some_cols = (b.some_cols, omega arith);
      some_rows = fit_rows-bounds gap (content_height margin window_h reserve_h has_pagination);
      items = refl;
      fits = subst (λ w. g.cols * w + gap * (g.cols - 1) ≤ cw) (sym b.its_width) fits;
      not_small = λ k. subst (λ w. 320 ≤ w) (sym b.its_width) (wide k);
      low = fit_rows_lem gap (content_height margin window_h reserve_h has_pagination);
      best = λ c lo hi. omega (arith, b.least c lo (omega arith), b.its_cost);
    }
