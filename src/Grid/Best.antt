-- ===== src/Grid/Best.antt =====
-- The loop of `app_grid_spec` finds the columns with the best width of a card.
use linyaps_store.Base.{
  ℕ, zero, suc, ◌+◌, ◌≤◌, ◌<◌, ◌≡◌, refl, sym, ltb, ◌==◌, ==_iff, Bool-cases, inl, inr, arith,
}
use mathlib.Core.Path.{subst}
use linyaps_store.Grid.{Choice, card_width, score, consider, choose, first_choice}

-- The best choice among the columns below `cols`.
pub record IsBest (gap content_w cols : ℕ) (b : Choice) : Type 0 where
  pub some_cols : 1 ≤ b.cols
  pub below : b.cols < cols
  pub its_width : b.width ≡ card_width gap content_w b.cols
  pub its_cost : b.cost ≡ score b.width
  pub least : (c : ℕ) → 1 ≤ c → c < cols → b.cost ≤ score (card_width gap content_w c)

least_further :
    (gap content_w cols cost : ℕ)
    → ((c : ℕ) → 1 ≤ c → c < cols → cost ≤ score (card_width gap content_w c))
    → cost ≤ score (card_width gap content_w cols)
    → (c : ℕ) → 1 ≤ c
    → c < cols + 1
    → cost ≤ score (card_width gap content_w c)
least_further gap content_w cols cost old here c lo hi = elim (Bool-cases (c == cols)) [
  | inl e ↦ subst (λ k. cost ≤ score (card_width gap content_w k)) (sym ((==_iff c cols).0 e)) here
  | inr other ↦ old c lo (ground arith)
]

consider-IsBest :
    (gap content_w cols : ℕ) (b : Choice)
    → IsBest gap content_w cols b
    → IsBest gap content_w (cols + 1) (consider gap content_w cols b)
unfolding consider
consider-IsBest gap content_w cols b h =
    elim (Bool-cases (ltb (score (card_width gap content_w cols)) b.cost)) [
      | inl better ↦
          let lt : score (card_width gap content_w cols) < b.cost = ground arith in
          rw better (record {
            some_cols = omega (arith, h.some_cols, h.below);
            below = omega arith;
            its_width = refl;
            its_cost = refl;
            least =
                least_further gap content_w cols (score (card_width gap content_w cols))
                  (λ c lo hi. omega (arith, h.least c lo hi)) (omega arith);
          })
      | inr worse ↦
          let le : b.cost ≤ score (card_width gap content_w cols) = ground arith in
          rw worse (record {
            some_cols = h.some_cols;
            below = omega (arith, h.below);
            its_width = h.its_width;
            its_cost = h.its_cost;
            least = least_further gap content_w cols b.cost h.least le;
          })
    ]

choose-IsBest :
    (n gap content_w cols : ℕ) (b : Choice)
    → IsBest gap content_w cols b
    → IsBest gap content_w (cols + n) (choose n gap content_w cols b)
unfolding choose
choose-IsBest zero gap content_w cols b h = subst (λ m. IsBest gap content_w m b) (omega arith) h
choose-IsBest (suc n) gap content_w cols b h =
    subst
      (λ m.
        IsBest gap content_w m (choose n gap content_w (cols + 1) (consider gap content_w cols b)))
      (omega arith)
      (choose-IsBest n gap content_w (cols + 1) (consider gap content_w cols b)
        (consider-IsBest gap content_w cols b h))

-- Content that is not too wide for the first cost.
abbrev pub max_content_w : ℕ
max_content_w = 300000

pub card_width_one : (gap content_w : ℕ) → card_width gap content_w 1 ≡ content_w
unfolding card_width
card_width_one gap content_w = omega arith

score_bound : (w : ℕ) → w ≤ max_content_w → score w < 1000000
unfolding score
score_bound w small = ground arith

-- The whole width is the first choice that the loop makes.
pub first_round :
    (gap content_w : ℕ)
    → content_w ≤ max_content_w
    → consider gap content_w 1 (first_choice content_w)
      ≡ record { cols = 1; width = content_w; cost = score content_w }
unfolding consider
first_round gap content_w small =
    rw (consider, card_width_one gap content_w) (ground (arith, score_bound content_w small))

pub choose-IsBest_first :
    (n gap content_w : ℕ)
    → content_w ≤ max_content_w
    → IsBest gap content_w (2 + n) (choose (suc n) gap content_w 1 (first_choice content_w))
unfolding choose
choose-IsBest_first n gap content_w small =
    let whole = card_width_one gap content_w in
    let b : Choice = record { cols = 1; width = content_w; cost = score content_w } in
    rw (first_round gap content_w small) (
      choose-IsBest n gap content_w 2 b (record {
        some_cols = omega arith;
        below = omega arith;
        its_width = sym whole;
        its_cost = refl;
        least = λ c lo hi. at_one c (omega arith) whole;
      }))
  where
    at_one :
        (c : ℕ)
        → c ≡ 1
        → card_width gap content_w 1 ≡ content_w
        → score content_w ≤ score (card_width gap content_w c)
    at_one c e whole =
        subst (λ k. score content_w ≤ score (card_width gap content_w k)) (sym e)
          (subst (λ w. score content_w ≤ score w) (sym whole) (omega arith))
