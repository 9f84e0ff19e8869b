-- ===== src/Backtest/WalkForward/Tiling.antt =====
-- The windows of ez/backtest/walk_forward.py as parts of the data.
use native.Mathlib.Nat.{
  le-div_iff_mul-le, div-lt_iff_lt-mul, div-mul-le_self, lt-div-mul-add, mul-div_cancel_left,
  zero-div,
}
use backtesting_framework.Common.{
  ℕ, zero, suc, ◌+◌, ◌-◌, ◌*◌, ◌/◌, ◌≤◌, ◌<◌, ◌≡◌, refl, ap, ◌∙◌, List, [], ◌∷◌, arith,
}
use backtesting_framework.Backtest.WalkForward.Windows.{Window, windows_from}

-- The windows follow each other from one bar to another, each with its test after its training.
abbrev pub Tiles : ℕ → List Window → ℕ → Type 0
Tiles first [] last = first ≡ last
Tiles first (w ∷ windows) last =
    (w.window_start ≡ first)
    × (w.window_start ≤ w.train_end)
    × (w.train_end ≤ w.window_end)
    × Tiles w.window_end windows last

div_lower : (a n k : ℕ) → 1 ≤ k → n / k + a / k ≤ (a + n) / k
div_lower a n k h =
    (le-div_iff_mul-le {k = k} {x = n / k + a / k} {y = a + n} h).1
      (omega (arith, div-mul-le_self a k, div-mul-le_self n k))

div_upper : (a n k : ℕ) → 1 ≤ k → (a + n) / k < n / k + a / k + 2
div_upper a n k h =
    (div-lt_iff_lt-mul {k = k} {x = a + n} {y = n / k + a / k + 2} h).1
      (omega (arith, lt-div-mul-add {a = a} h, lt-div-mul-add {a = n} h))

-- A window has the smallest length or one bar more.
pub window_length :
    (n n_splits i : ℕ)
    → 1 ≤ n_splits
    → (n / n_splits ≤ (i + 1) * n / n_splits - i * n / n_splits)
      × ((i + 1) * n / n_splits - i * n / n_splits ≤ n / n_splits + 1)
      × (i * n / n_splits ≤ (i + 1) * n / n_splits)
window_length n n_splits i h =
    let next : (i + 1) * n ≡ i * n + n = omega arith in
    let lower : n / n_splits + i * n / n_splits ≤ (i + 1) * n / n_splits =
      rw next (div_lower (i * n) n n_splits h) in
    let upper : (i + 1) * n / n_splits < n / n_splits + i * n / n_splits + 2 =
      rw next (div_upper (i * n) n n_splits h) in
    (omega (arith, lower), omega (arith, upper), omega (arith, lower))

windows_from-Tiles :
    (trained : ℕ → ℕ) (n n_splits i count : ℕ)
    → 1 ≤ n_splits
    → ((w : ℕ) → trained w ≤ w)
    → Tiles
        (i * n / n_splits)
        (windows_from trained n n_splits i count)
        ((i + count) * n / n_splits)
unfolding windows_from
windows_from-Tiles trained n n_splits i zero h less =
    let same : i + 0 ≡ i = omega arith in rw same refl
windows_from-Tiles trained n n_splits i (suc count) h less =
    let (shortest, longest, forward) = window_length n n_splits i h in
    let size = (i + 1) * n / n_splits - i * n / n_splits in
    let rest = windows_from-Tiles trained n n_splits (i + 1) count h less in
    let moved : i + 1 + count ≡ i + suc count = omega arith in
    (refl, omega arith, omega (arith, less size, forward), rw moved at rest)

-- With at least one split, and with training parts that are no longer than their windows, the windows of a
-- validation cut the bars from the first to the last into parts that follow each other without a gap or an
-- overlap, each of which has its test right after its training.
pub windows-Tiles :
    (trained : ℕ → ℕ) (n n_splits : ℕ)
    → 1 ≤ n_splits
    → ((w : ℕ) → trained w ≤ w)
    → Tiles 0 (windows_from trained n n_splits 0 n_splits) n
windows-Tiles trained n n_splits h less =
    let tiles = windows_from-Tiles trained n n_splits 0 n_splits h less in
    let first : 0 * n / n_splits ≡ 0 = ap (λ a. a / n_splits) (omega arith) ∙ zero-div n_splits in
    let last : (0 + n_splits) * n / n_splits ≡ n =
      ap (λ k. k * n / n_splits) (omega arith) ∙ mul-div_cancel_left n h in
    rw (first, last) at tiles
