-- ===== src/Benchmark.antt =====
-- python/rlox_agent/config.py: the constants of the benchmark and their validation.
-- A field that is None is `none`; a numeric field is an int or a float. The environment's versions
-- are the dict that the probe gives.
pub mod Validity
mod Tests
use rlox.Base.{ℕ, Bool, true, false, Option, none, some, List, [], ◌∷◌, if◌then◌else◌, String}
use rlox.Base.Float.{Float}
use rlox.Base.Dict.{Eq, string_eq, Dict, lookup}

-- The reasons of a `ConfigValidationError`.
pub data ConfigValidationError : Type 0 where
  empty_field missing_field not_positive : (name : String) → ConfigValidationError
  too_few_seeds no_fractions no_baseline : ConfigValidationError
  pin_mismatch : (name : String) → ConfigValidationError

pub record BenchmarkConfig (F : Float) : Type 0 where
  pub model_revision : Option String
  pub dataset_split : Option String
  pub dataset_seed : Option F.Carrier
  pub global_batch_size : Option F.Carrier
  pub rollout_count : Option F.Carrier
  pub max_seq_len : Option F.Carrier
  pub reward_fn : Option String
  pub data_order_seed : Option F.Carrier
  pub n_steps : Option F.Carrier
  pub n_seeds : Option F.Carrier
  pub warmup_steps : Option F.Carrier
  pub adversarial_fractions : Option (List F.Carrier)
  pub per_sample_timeout_secs : Option F.Carrier
  pub primerl_commit : Option String
  pub verifiers_commit : Option String
  pub vllm_version : Option String
  pub torch_version : Option String
  pub rlox_commit : Option String

module _ (F : Float) where
  abbrev pub required_string_fields : BenchmarkConfig F → List (String × Option String)
  required_string_fields c =
      ("model_revision", c.model_revision)
      ∷ ("dataset_split", c.dataset_split)
      ∷ ("reward_fn", c.reward_fn)
      ∷ ("primerl_commit", c.primerl_commit)
      ∷ ("verifiers_commit", c.verifiers_commit)
      ∷ ("vllm_version", c.vllm_version)
      ∷ ("torch_version", c.torch_version)
      ∷ ("rlox_commit", c.rlox_commit)
      ∷ []

  abbrev pub required_numeric_fields : BenchmarkConfig F → List (String × Option F.Carrier)
  required_numeric_fields c =
      ("dataset_seed", c.dataset_seed)
      ∷ ("global_batch_size", c.global_batch_size)
      ∷ ("rollout_count", c.rollout_count)
      ∷ ("max_seq_len", c.max_seq_len)
      ∷ ("data_order_seed", c.data_order_seed)
      ∷ ("n_steps", c.n_steps)
      ∷ ("n_seeds", c.n_seeds)
      ∷ ("warmup_steps", c.warmup_steps)
      ∷ ("per_sample_timeout_secs", c.per_sample_timeout_secs)
      ∷ []

  abbrev pub must_be_positive_fields : BenchmarkConfig F → List (String × Option F.Carrier)
  must_be_positive_fields c =
      ("global_batch_size", c.global_batch_size)
      ∷ ("rollout_count", c.rollout_count)
      ∷ ("max_seq_len", c.max_seq_len)
      ∷ ("n_steps", c.n_steps)
      ∷ ("per_sample_timeout_secs", c.per_sample_timeout_secs)
      ∷ []

  abbrev pub version_pin_fields : BenchmarkConfig F → List (String × Option String)
  version_pin_fields c = ("vllm_version", c.vllm_version) ∷ ("torch_version", c.torch_version) ∷ []

  -- `bool(value)`
  abbrev pub is_set : Option String → Bool
  is_set none = false
  is_set (some s) = if string_eq.beq s "" then false else true

  unfoldable pub check_strings : List (String × Option String) → Option ConfigValidationError
  check_strings [] = none
  check_strings ((name, v) ∷ fs) =
      let rest = check_strings fs in if is_set v then rest else some (empty_field name)

  unfoldable pub check_numbers : List (String × Option F.Carrier) → Option ConfigValidationError
  check_numbers [] = none
  check_numbers ((name, none) ∷ fs) = some (missing_field name)
  check_numbers ((name, some x) ∷ fs) = check_numbers fs

  unfoldable pub check_positive : List (String × Option F.Carrier) → Option ConfigValidationError
  check_positive [] = none
  check_positive ((name, none) ∷ fs) = check_positive fs
  check_positive ((name, some x) ∷ fs) =
      let rest = check_positive fs in if F.le x (F.of_ℕ 0) then some (not_positive name) else rest

  unfoldable pub check_seeds : Option F.Carrier → Option ConfigValidationError
  check_seeds none = some too_few_seeds
  check_seeds (some n) = if F.lt n (F.of_ℕ 3) then some too_few_seeds else none

  -- `0.0 in fractions`
  abbrev pub has_baseline : List F.Carrier → Bool
  has_baseline [] = false
  has_baseline (x ∷ xs) = if F.eq x (F.of_ℕ 0) then true else has_baseline xs

  unfoldable pub check_fractions : Option (List F.Carrier) → Option ConfigValidationError
  check_fractions none = some no_fractions
  check_fractions (some []) = some no_fractions
  check_fractions (some (x ∷ xs)) = if has_baseline (x ∷ xs) then none else some no_baseline

  abbrev pub is_pinned : Option String → String → Bool
  is_pinned none e = false
  is_pinned (some v) e = string_eq.beq v e

  -- The pins that the environment reports.
  unfoldable pub check_pins :
      Dict String String → List (String × Option String) → Option ConfigValidationError
  check_pins env [] = none
  check_pins env ((name, v) ∷ fs) =
      let rest = check_pins env fs in
      elim (lookup name env) [
        | none ↦ rest
        | some e ↦ if is_pinned v e then rest else some (pin_mismatch name)
      ]

  -- The next check, if the one before did not raise.
  abbrev pub then_check :
      Option ConfigValidationError → Option ConfigValidationError → Option ConfigValidationError
  then_check (some e) next = some e
  then_check none next = next

  -- The exception that `validate_config` raises, if it does.
  unfoldable pub validate_config :
      BenchmarkConfig F → Dict String String → Option ConfigValidationError
  unfolding check_strings check_numbers check_positive check_seeds check_fractions check_pins
  validate_config c env = then_check (check_strings (required_string_fields c)) (
      then_check (check_numbers (required_numeric_fields c)) (
        then_check (check_positive (must_be_positive_fields c)) (
          then_check (check_seeds c.n_seeds) (
            then_check (check_fractions c.adversarial_fractions)
              (check_pins env (version_pin_fields c))))))
