-- ===== src/Base/Samples.antt =====
-- A number type that meets what is assumed of floats, for examples: the natural numbers.
use Prim.Native.Nat.{ℕ, ◌+◌, ◌-◌, ◌*◌, ◌/◌}
use native.Mathlib.Omega.{arith}
use rlox.Base.Tests.{ltb, leb, ◌==◌}
use rlox.Base.Float.{Float, IsOrdered, IsStrictOrder}

abbrev pub counting : Float
counting = record {
  Carrier = ℕ;
  neg_inf = 0;
  of_ℕ = λ n. n;
  ratio = λ a b. a / b;
  trunc = λ n. n;
  add = λ a b. a + b;
  sub = λ a b. a - b;
  mul = λ a b. a * b;
  div = λ a b. a / b;
  lt = ltb;
  le = leb;
  eq = λ a b. a == b;
}

pub counting-IsOrdered : IsOrdered counting (λ n. Unit)
counting-IsOrdered = record {
  lt_trans = λ a b c h k. ground arith;
  lt_of_not_lt = λ a b c na nb nc h k. ground arith;
  neg_inf_number = tt;
}

pub counting-IsStrictOrder : IsStrictOrder counting
counting-IsStrictOrder = record {
  lt_irrefl = λ a. ground arith;
  lt_trans = λ a b c h k. ground arith;
}
