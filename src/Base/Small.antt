-- ===== src/Base/Small.antt =====
-- Numbers that stand for Python's floats in the examples: naturals, with no NaN and no complex part.
use Prim.Native.Nat.{ℕ, ◌+◌, ◌-◌, ◌*◌, ◌/◌, ◌^◌}
use mathlib.Core.Option.{Option, some}
use native.Mathlib.Omega.{arith}
use emi_analyzer.Base.Tests.{ltb, leb, ◌==◌}
use emi_analyzer.Base.Json.{ℤ, pos, negsuc, Floats, IsOrdered}

abbrev whole_part : ℤ → Option ℕ
whole_part (pos n) = some n
whole_part (negsuc n) = some 0

abbrev pub small : Floats
small = record {
  Float = ℕ;
  lt = ltb;
  le = leb;
  eq = λ a b. a == b;
  lit = λ m e. m / 10 ^ e;
  whole = whole_part;
  inf = 1000000000000;
  pi = 3;
  neg = λ a. 1000000000001;
  abs = λ a. a;
  sqrt = λ a. 1;
  log10 = λ a. a;
  add = λ a b. a + b;
  sub = λ a b. a - b;
  mul = λ a b. a * b;
  div = λ a b. a / b;
  pow = λ a b. a ^ b;
  ten_to = some;
  round = pos;
  floor = pos;
  ceil = pos;
  Complex = ℕ;
  complex = λ a b. a;
  cadd = λ a b. a + b;
  csub = λ a b. a - b;
  cmul = λ a b. a * b;
  cdiv = λ a b. a / b;
  cexp = λ a. a;
  cabs = λ a. a;
  ceq = λ a b. a == b;
}

pub small-IsOrdered : IsOrdered small
small-IsOrdered = record { total = λ a b. ground arith; lt-le = λ a b. ground arith }
