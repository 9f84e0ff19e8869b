-- ===== src/Common/NatFloat.antt =====
-- Natural numbers in the place of floats, on which the tests run the program.
use Prim.Native.Nat.{ℕ, ◌+◌, ◌-◌, ◌*◌, ◌/◌, ◌^◌}
use backtesting_framework.Common.Tests.{ltb, leb}
use backtesting_framework.Common.Int.{ℤ, pos, negsuc}
use backtesting_framework.Common.Floats.{Float}

abbrev nat_of_int : ℤ → ℕ
nat_of_int (pos n) = n
nat_of_int (negsuc n) = 0

instance abbrev pub nat_float : Float ℕ
nat_float = record {
  add = λ a b. a + b;
  sub = λ a b. a - b;
  mul = λ a b. a * b;
  div = λ a b. a / b;
  abs_float = λ a. a;
  lt = ltb;
  le = leb;
  of_int = nat_of_int;
  literal = λ m e. m / 10 ^ e;
  floor_div = λ a n. pos (a / n);
  neg = λ a. 0;
}
