-- ===== src/Base/Float.antt =====
-- Python's floats, as a parameter: a type with the operations that the modelled code calls.
use Prim.Native.Nat.{ℕ}
use mathlib.Core.Path.{◌≡◌}
use mathlib.Core.Bool.{Bool, true, false}

pub record Float : Type 1 where
  pub Carrier : Type 0
  pub neg_inf : Carrier
  pub of_ℕ : ℕ → Carrier
  -- a decimal literal, such as `ratio 20 100` for 0.20
  pub ratio : (numerator denominator : ℕ) → Carrier
  -- `int(x)` of a float that is not negative
  pub trunc : Carrier → ℕ
  pub add : Carrier → Carrier → Carrier
  pub sub : Carrier → Carrier → Carrier
  pub mul : Carrier → Carrier → Carrier
  pub div : Carrier → Carrier → Carrier
  pub lt : Carrier → Carrier → Bool
  pub le : Carrier → Carrier → Bool
  pub eq : Carrier → Carrier → Bool

-- What the numbers among the floats satisfy under `<`: those that are not NaN.
pub record IsOrdered (F : Float) (IsNumber : F.Carrier → Type 0) : Type 0 where
  pub lt_trans : (a b c : F.Carrier) → F.lt a b ≡ true → F.lt b c ≡ true → F.lt a c ≡ true
  pub lt_of_not_lt :
      (a b c : F.Carrier)
      → IsNumber a
      → IsNumber b
      → IsNumber c
      → F.lt a b ≡ false
      → F.lt a c ≡ true
      → F.lt b c ≡ true
  pub neg_inf_number : IsNumber F.neg_inf

-- `<` is a strict order, on NaN too.
pub record IsStrictOrder (F : Float) : Type 0 where
  pub lt_irrefl : (a : F.Carrier) → F.lt a a ≡ false
  pub lt_trans : (a b c : F.Carrier) → F.lt a b ≡ true → F.lt b c ≡ true → F.lt a c ≡ true
