-- ===== src/Config/Values.antt =====
-- python/rlox/config.py: the values of the fields, and the checks on them.
use rlox.Base.{
  ℕ, Bool, true, false, ◌&&◌, not, Option, none, some, List, [], ◌∷◌, if◌then◌else◌, length, ◌==◌,
  String,
}
use Prim.Native.String.{compare as compare_text}
use Prim.Native.Nat.{Ordering}
use text.Mathlib.TextBridge.{to_list}
use rlox.Base.Float.{Float}
use rlox.Base.Dict.{string_eq, Dict, lookup}

pub data Error : Type 0 where
  value_error type_error attribute_error : Error

module _ (F : Float) where
  -- A number is an int or a float; a sequence is a list of numbers, a tuple is one of
  -- Python's tuples.
  pub data Value : Type 0 where
    missing : Value
    boolean : Bool → Value
    number : F.Carrier → Value
    string : String → Value
    sequence tuple : List F.Carrier → Value

  -- A check of `__post_init__`, on fields by their names.
  pub data Rule : Type 0 where
    -- `_validate_positive`
    positive : (name : String) → Rule
    -- `_validate_min`
    at_least : (name : String) (minimum : ℕ) → Rule
    -- `if value not in (...): raise ValueError`
    one_of : (name : String) (choices : List String) → Rule
    -- `if start <= end: raise ValueError`
    decreasing : (start end : String) → Rule
    -- `if not 0.0 < value <= 1.0: raise ValueError`
    in_unit_interval : (name : String) → Rule
    -- `if not (len(value) == 2 and all(0.0 <= b < 1.0 for b in value)): raise ValueError`
    two_betas : (name : String) → Rule

  -- `none` is the exception TypeError of the comparison.
  unfoldable pub as_number : Value → Option F.Carrier
  as_number missing = none
  as_number (boolean true) = some (F.of_ℕ 1)
  as_number (boolean false) = some (F.of_ℕ 0)
  as_number (number x) = some x
  as_number (string s) = none
  as_number (sequence xs) = none
  as_number (tuple xs) = none

  abbrev pub is_one_of : String → List String → Bool
  is_one_of s [] = false
  is_one_of s (c ∷ cs) = if string_eq.beq c s then true else is_one_of s cs

  abbrev all_betas : List F.Carrier → Bool
  all_betas [] = true
  all_betas (b ∷ bs) = (F.le (F.of_ℕ 0) b && F.lt b (F.of_ℕ 1)) && all_betas bs

  -- `raise ValueError` unless the test holds.
  abbrev demand : Bool → Option Error
  demand true = none
  demand false = some value_error

  -- Several checks of a number.
  abbrev on_number : Value → (F.Carrier → Bool) → Option Error
  on_number v test = elim (as_number v) [ none ↦ some type_error | some x ↦ demand (test x) ]

  unfoldable pub validate_positive : Value → Option Error
  unfolding as_number
  validate_positive v = on_number v (λ x. not (F.le x (F.of_ℕ 0)))

  unfoldable pub validate_min : Value → ℕ → Option Error
  unfolding as_number
  validate_min v minimum = on_number v (λ x. not (F.lt x (F.of_ℕ minimum)))

  abbrev pub field_value : String → Dict String Value → Value
  field_value name c = elim (lookup name c) [ none ↦ missing | some v ↦ v ]

  -- `xs <= ys` of lists or of tuples, and of texts
  sequence_le : List F.Carrier → List F.Carrier → Bool
  sequence_le [] ys = true
  sequence_le (x ∷ xs) [] = false
  sequence_le (x ∷ xs) (y ∷ ys) =
      let rest = sequence_le xs ys in if F.eq x y then rest else F.le x y

  text_le : String → String → Bool
  text_le s t = elim (compare_text s t) [ Ordering.gt ↦ false | _ ↦ true ]

  -- `v <= w`; `none` is the exception TypeError.
  unfoldable pub value_le : Value → Value → Option Bool
  unfolding as_number sequence_le text_le
  value_le (string s) (string t) = some (text_le s t)
  value_le (sequence xs) (sequence ys) = some (sequence_le xs ys)
  value_le (tuple xs) (tuple ys) = some (sequence_le xs ys)
  value_le v w = elim (as_number v) [
    | none ↦ none
    | some a ↦ elim (as_number w) [ none ↦ none | some b ↦ some (F.le a b) ]
  ]

  -- The exception that a check raises, if it does.
  unfoldable pub check_rule : Rule → Dict String Value → Option Error
  unfolding validate_positive validate_min as_number value_le
  check_rule (positive name) c = validate_positive (field_value name c)
  check_rule (at_least name minimum) c = validate_min (field_value name c) minimum
  check_rule (one_of name choices) c = elim (field_value name c) [
    | string s ↦ demand (is_one_of s choices)
    | missing ↦ some value_error
    | boolean b ↦ some value_error
    | number x ↦ some value_error
    | sequence xs ↦ some value_error
    | tuple xs ↦ some value_error
  ]
  check_rule (decreasing start end) c = elim (value_le (field_value start c) (field_value end c)) [
    | none ↦ some type_error
    | some le ↦ demand (not le)
  ]
  check_rule (in_unit_interval name) c =
      on_number (field_value name c) (λ x. F.lt (F.of_ℕ 0) x && F.le x (F.of_ℕ 1))
  check_rule (two_betas name) c = elim (field_value name c) [
    | sequence xs ↦ demand (length xs == 2 && all_betas xs)
    | tuple xs ↦ demand (length xs == 2 && all_betas xs)
    | missing ↦ some type_error
    | boolean b ↦ some type_error
    | number x ↦ some type_error
    | string s ↦ if length (to_list s) == 2 then some type_error else some value_error
  ]

  -- The checks in their order; the first that raises ends them.
  unfoldable pub check_rules : List Rule → Dict String Value → Option Error
  unfolding check_rule
  check_rules [] c = none
  check_rules (r ∷ rs) c = elim (check_rule r c) [ some e ↦ some e | none ↦ check_rules rs c ]
