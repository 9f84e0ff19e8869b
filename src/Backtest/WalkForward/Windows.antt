-- ===== src/Backtest/WalkForward/Windows.antt =====
-- `WalkForwardValidator.validate` of ez/backtest/walk_forward.py, up to the results of its splits. Of the
-- data only the number of bars matters. The engine, which runs on a fresh copy of the strategy each time, is a
-- function of the first bar and of the bar after the last; `int(w * train_ratio)`, Python's own arithmetic, is
-- the function `trained` of the window's length.
use Prim.Native.Nat.{max}
use backtesting_framework.Common.{
  ℕ, zero, suc, ◌+◌, ◌-◌, ◌*◌, ◌/◌, ltb, ◌&&◌, not, ◌⊎◌, inl, inr, List, [], ◌∷◌, if◌then◌else◌,
  Float, one_float, is_positive,
}

-- A window with the end of its in-sample part.
pub record Window : Type 0 where
  pub window_start : ℕ
  pub train_end : ℕ
  pub window_end : ℕ

-- The results in-sample and out of sample, split by split.
pub record Splits (R : Type 0) : Type 0 where
  pub is_results : List R
  pub oos_results : List R

-- What the `ValueError` is about.
pub data Refusal : Type 0 where
  too_few_splits ratio_out_of_range oos_window_too_short : Refusal

-- `_MIN_OOS_BARS`
abbrev pub min_oos_bars : ℕ
min_oos_bars = 10

-- `warmup`
abbrev pub warmup_from : ℕ → List ℕ → ℕ
warmup_from warmup [] = warmup
warmup_from warmup (period ∷ periods) = warmup_from (max warmup period) periods

-- The window with the number `i`.
abbrev pub window : (ℕ → ℕ) → ℕ → ℕ → ℕ → Window
window trained n n_splits i =
    let window_start = i * n / n_splits in
    let window_end = (i + 1) * n / n_splits in
    record {
      window_start = window_start;
      train_end = window_start + trained (window_end - window_start);
      window_end = window_end;
    }

-- `count` windows from the number `i` on.
unfoldable pub windows_from : (ℕ → ℕ) → ℕ → ℕ → ℕ → ℕ → List Window
windows_from trained n n_splits i zero = []
windows_from trained n n_splits i (suc count) =
    window trained n n_splits i ∷ windows_from trained n n_splits (i + 1) count

abbrev pub test_size : Window → ℕ
test_size w = w.window_end - w.train_end

module _ {R : Type 0} where
  abbrev pub with_split : (ℕ → ℕ → R) → Window → Splits R → Splits R
  with_split run w rest = record {
    is_results = run w.window_start w.train_end ∷ rest.is_results;
    oos_results = run w.train_end w.window_end ∷ rest.oos_results;
  }

  -- The loop over the windows; a window with too short a test is passed over.
  unfoldable pub splits_of : (ℕ → ℕ → R) → List Window → Splits R
  splits_of run [] = record { is_results = []; oos_results = [] }
  splits_of run (w ∷ windows) =
      let rest = splits_of run windows in
      if ltb (test_size w) min_oos_bars then rest else with_split run w rest

module _ {F R : Type 0} ⦃o : Float F⦄ where
  -- `validate`
  unfoldable pub validate : (ℕ → ℕ → R) → (F → ℕ → ℕ) → ℕ → List ℕ → ℕ → F → Refusal ⊎ Splits R
  unfolding windows_from splits_of
  validate run trained n warmup_periods n_splits train_ratio =
      let min_window = n / n_splits in
      let warmup = warmup_from 0 warmup_periods in
      if ltb n_splits 2
      then inl Refusal.too_few_splits
      else if not (is_positive train_ratio && o.lt train_ratio one_float)
      then inl Refusal.ratio_out_of_range
      else if ltb (min_window - trained train_ratio min_window) (warmup + min_oos_bars)
      then inl Refusal.oos_window_too_short
      else inr (splits_of run (windows_from (trained train_ratio) n n_splits 0 n_splits))
