-- ===== src/Benchmark/Tests.antt =====
-- python/rlox_agent/config.py on small inputs.
use rlox.Base.{◌≡◌, refl, ◌↔◌, none, some, [], ◌∷◌, String}
use rlox.Base.Samples.{counting}
use rlox.Base.Dict.{Dict}
use rlox.Benchmark.{
  BenchmarkConfig, pin_mismatch, too_few_seeds, validate_config, check_strings, check_numbers,
  check_positive, check_seeds, check_fractions, check_pins,
}
use rlox.Benchmark.Validity.{IsValid, validate_config-IsValid}

abbrev config : BenchmarkConfig counting
config = record {
  model_revision = some "r";
  dataset_split = some "train";
  dataset_seed = some 0;
  global_batch_size = some 8;
  rollout_count = some 4;
  max_seq_len = some 64;
  reward_fn = some "f";
  data_order_seed = some 0;
  n_steps = some 10;
  n_seeds = some 3;
  warmup_steps = some 0;
  adversarial_fractions = some (1 ∷ 0 ∷ []);
  per_sample_timeout_secs = some 30;
  primerl_commit = some "p";
  verifiers_commit = some "v";
  vllm_version = some "0.22.0";
  torch_version = some "2.9.0";
  rlox_commit = some "c";
}

abbrev env : Dict String String
env = ("vllm_version", "0.22.0") ∷ []

accepted : validate_config counting config env ≡ none
unfolding validate_config check_strings check_numbers check_positive check_seeds check_fractions
    check_pins
accepted = refl

other_version :
    validate_config counting config (("torch_version", "2.8.0") ∷ env)
    ≡ some (pin_mismatch "torch_version")
unfolding validate_config check_strings check_numbers check_positive check_seeds check_fractions
    check_pins
other_version = refl

two_seeds : validate_config counting (record config { n_seeds = some 2 }) env ≡ some too_few_seeds
unfolding validate_config check_strings check_numbers check_positive check_seeds
two_seeds = refl

validate_config-IsValid_example :
    (validate_config counting config env ≡ none) ↔ IsValid counting config env
validate_config-IsValid_example = validate_config-IsValid counting config env
