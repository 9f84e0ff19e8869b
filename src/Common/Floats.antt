-- ===== src/Common/Floats.antt =====
-- Python's floats, as an interface: the operations that the program performs on them, with no law.
-- Every theorem that needs a law states it among its hypotheses.
use Prim.Native.Nat.{ℕ}
use mathlib.Core.Bool.{Bool}
use backtesting_framework.Common.Tests.{if◌then◌else◌}
use backtesting_framework.Common.Int.{ℤ, pos}

pub record Float (F : Type 0) : Type 0 where
  pub add : F → F → F
  pub sub : F → F → F
  pub mul : F → F → F
  pub div : F → F → F
  pub abs_float : F → F
  pub lt : F → F → Bool
  pub le : F → F → Bool
  pub of_int : ℤ → F
  -- the decimal literal m / 10 ^ e
  pub literal : ℕ → ℕ → F
  -- int(x // n) of a finite x and a positive n; for others Python raises an exception
  pub floor_div : F → ℕ → ℤ
  pub neg : F → F

module _ {F : Type 0} ⦃o : Float F⦄ where
  abbrev pub zero_float : F
  zero_float = o.of_int (pos 0)

  abbrev pub one_float : F
  one_float = o.of_int (pos 1)

  abbrev pub is_positive : F → Bool
  is_positive x = o.lt zero_float x

  -- Python's `max` of two: the first unless the second is greater.
  abbrev pub larger : F → F → F
  larger a b = if o.lt a b then b else a

  -- Python's `min` of two: the first unless the second is less.
  abbrev pub smaller : F → F → F
  smaller a b = if o.lt b a then b else a
