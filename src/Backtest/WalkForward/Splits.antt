-- ===== src/Backtest/WalkForward/Splits.antt =====
-- Which validations of ez/backtest/walk_forward.py are refused, and that the others use every window.
use backtesting_framework.Common.{
  ℕ, zero, suc, ◌+◌, ◌-◌, ◌*◌, ◌/◌, ◌≤◌, ◌<◌, ltb, leb, true, false, ◌&&◌, ◌⊎◌, ◌↔◌, inl, inr, ◌≡◌,
  refl, ap, List, [], ◌∷◌, map, length, All, arith, Float, one_float, is_positive, Bool-cases,
}
use backtesting_framework.Backtest.WalkForward.Windows.{
  Window, Splits, Refusal, min_oos_bars, warmup_from, windows_from, test_size, with_split,
  splits_of, validate,
}
use backtesting_framework.Backtest.WalkForward.Tiling.{window_length}

-- The test of a longer window is no shorter.
test_grows :
    (trained : ℕ → ℕ) (q s : ℕ)
    → ((w : ℕ) → trained (w + 1) ≤ trained w + 1)
    → q ≤ s
    → s ≤ q + 1
    → q - trained q ≤ s - trained s
test_grows trained q s grows h k = elim (Bool-cases (leb s q)) [
  | inl e ↦ let same : s ≡ q = ground arith in rw same (omega arith)
  | inr e ↦ let next : s ≡ q + 1 = ground arith in rw next (omega (arith, grows q))
]

module _ (trained : ℕ → ℕ) (n n_splits bars : ℕ) where
  windows_from-All :
      (i count : ℕ)
      → 1 ≤ n_splits
      → ((w : ℕ) → trained (w + 1) ≤ trained w + 1)
      → bars ≤ n / n_splits - trained (n / n_splits)
      → All (λ w. bars ≤ test_size w) (windows_from trained n n_splits i count)
  unfolding windows_from
  windows_from-All i zero h grows enough = tt
  windows_from-All i (suc count) h grows enough =
      let (shortest, longest, forward) = window_length n n_splits i h in
      let size = (i + 1) * n / n_splits - i * n / n_splits in
      (
        omega
            (arith, enough, test_grows trained (n / n_splits) size grows shortest longest, forward),
        windows_from-All (i + 1) count h grows enough,
      )

module _ {R : Type 0} (run : ℕ → ℕ → R) where
  -- The results of all windows.
  abbrev pub all_splits : List Window → Splits R
  all_splits windows = record {
    is_results = map (λ w. run w.window_start w.train_end) windows;
    oos_results = map (λ w. run w.train_end w.window_end) windows;
  }

  splits_of_long :
      (windows : List Window)
      → All (λ w. min_oos_bars ≤ test_size w) windows
      → splits_of run windows ≡ all_splits windows
  unfolding splits_of
  splits_of_long [] h = refl
  splits_of_long (w ∷ windows) h =
      let long_enough : ltb (test_size w) min_oos_bars ≡ false = ground arith in
      rw (long_enough) (ap (with_split run w) (splits_of_long windows h.1))

All-less :
    (a b : ℕ) (windows : List Window)
    → a ≤ b
    → All (λ w. b ≤ test_size w) windows
    → All (λ w. a ≤ test_size w) windows
All-less a b [] h all = tt
All-less a b (w ∷ windows) h all = (omega (arith, h, all.0), All-less a b windows h all.1)

length-windows_from :
    (trained : ℕ → ℕ) (n n_splits i count : ℕ)
    → length (windows_from trained n n_splits i count) ≡ count
unfolding windows_from
length-windows_from trained n n_splits i zero = refl
length-windows_from trained n n_splits i (suc count) =
    omega (arith, length-windows_from trained n n_splits (i + 1) count)

module _ {R : Type 0} where
  -- What a validation that is not refused gives: results for as many windows as there are splits, each with a
  -- test of at least the warmup and the minimal number of bars.
  pub record UsesAll (run : ℕ → ℕ → R) (warmup n_splits : ℕ) (windows : List Window)
      (result : Refusal ⊎ Splits R) : Type 0 where
    pub given : result ≡ inr (all_splits run windows)
    pub number : length windows ≡ n_splits
    pub tested : All (λ w. warmup + min_oos_bars ≤ test_size w) windows

module _ {F : Type 0} ⦃o : Float F⦄ where
  -- When a reason is given: the reasons before it do not hold, and it does.
  abbrev pub IsReason : (F → ℕ → ℕ) → ℕ → List ℕ → ℕ → F → Refusal → Type 0
  IsReason trained n warmup_periods n_splits train_ratio Refusal.too_few_splits = n_splits < 2
  IsReason trained n warmup_periods n_splits train_ratio Refusal.ratio_out_of_range =
      (2 ≤ n_splits) × ((is_positive train_ratio && o.lt train_ratio one_float) ≡ false)
  IsReason trained n warmup_periods n_splits train_ratio Refusal.oos_window_too_short =
      (2 ≤ n_splits)
      × ((is_positive train_ratio && o.lt train_ratio one_float) ≡ true)
      × (n / n_splits - trained train_ratio (n / n_splits)
          < warmup_from 0 warmup_periods + min_oos_bars)

module _ {F R : Type 0} ⦃o : Float F⦄ where
  -- If there are at least two splits, the training ratio is between 0 and 1, the smallest window leaves a test of
  -- at least the warmup and ten bars, and a window that is longer by one bar has at most one bar more of
  -- training, then a validation is not refused and passes over no window: every split has its two results,
  -- and its test has at least the warmup and ten bars.
  pub validate-UsesAll :
      (run : ℕ → ℕ → R) (trained : F → ℕ → ℕ) (n : ℕ) (warmup_periods : List ℕ) (n_splits : ℕ)
      (train_ratio : F)
      → 2 ≤ n_splits
      → (is_positive train_ratio && o.lt train_ratio one_float) ≡ true
      → ((w : ℕ) → trained train_ratio (w + 1) ≤ trained train_ratio w + 1)
      → warmup_from 0 warmup_periods + min_oos_bars
        ≤ n / n_splits - trained train_ratio (n / n_splits)
      → UsesAll run
          (warmup_from 0 warmup_periods)
          n_splits
          (windows_from (trained train_ratio) n n_splits 0 n_splits)
          (validate run trained n warmup_periods n_splits train_ratio)
  unfolding validate
  validate-UsesAll run trained n warmup_periods n_splits train_ratio some_splits ratio grows
        enough =
      let warmup = warmup_from 0 warmup_periods in
      let windows = windows_from (trained train_ratio) n n_splits 0 n_splits in
      let all =
        windows_from-All (trained train_ratio) n n_splits (warmup + min_oos_bars) 0 n_splits
          (omega (arith, some_splits)) grows enough in
      let not_few : ltb n_splits 2 ≡ false = ground arith in
      let not_short : ltb (n / n_splits - trained train_ratio (n / n_splits))
            (warmup + min_oos_bars)
          ≡ false =
        ground arith in
      record {
        given =
            rw (not_few, ratio, not_short)
              (ap inr (
                splits_of_long run windows
                  (All-less min_oos_bars (warmup + min_oos_bars) windows (omega arith) all)));
        number = length-windows_from (trained train_ratio) n n_splits 0 n_splits;
        tested = all;
      }

  -- A validation is refused for exactly the first of these reasons that holds: fewer than two splits, a training
  -- ratio that is not between 0 and 1, or a smallest window whose test has fewer bars than the warmup
  -- and ten.
  pub validate-IsReason :
      (run : ℕ → ℕ → R) (trained : F → ℕ → ℕ) (n : ℕ) (warmup_periods : List ℕ) (n_splits : ℕ)
      (train_ratio : F) (refusal : Refusal)
      → (validate run trained n warmup_periods n_splits train_ratio ≡ inl refusal)
        ↔ IsReason trained n warmup_periods n_splits train_ratio refusal
  unfolding validate
  validate-IsReason run trained n warmup_periods n_splits train_ratio Refusal.too_few_splits =
      ground arith
  validate-IsReason run trained n warmup_periods n_splits train_ratio Refusal.ratio_out_of_range =
      ground arith
  validate-IsReason run trained n warmup_periods n_splits train_ratio Refusal.oos_window_too_short =
      ground arith
