-- ===== src/RloxVerify/Tests.antt =====
-- environments/rlox_verify/rlox_verify/__init__.py on small inputs.
use rlox.Base.{
  ℕ, suc, ◌≡◌, ◌+◌, ◌-◌, ◌<◌, ◌≤◌, zero, refl, true, false, Bool, Option, none, some, List, [], ◌∷◌,
  length, get_elem?, All, arith, String, ok, raised,
}
use rlox.Base.Samples.{counting}
use rlox.Base.Dict.{string_eq}
use rlox.Verifiers.Messages.{Content, is_space, strip, lstrip, Text, Messages, plain}
use rlox.Verifiers.Rewards.{Process, returned, Payload, Response, State, write_result, str, other}
use rlox.Verifiers.Rewards
use rlox.Adversarial.{AdversarialCorpus, AdversarialSample, AdversarialInjector}
use rlox.Adversarial
use rlox.RloxVerify.Dataset.{
  MbppRow, mbpp_problem, fallback, Datasets, range, is_disabled, load_mbpp_problems, build_dataset,
  Example, text_of,
}
use rlox.RloxVerify.Environment.{
  RloxVerifyConfig, reward_func, effective_tests, value_error, load_environment,
}
use rlox.RloxVerify.Loading.{IsShuffle, IsDataset, build_dataset-IsDataset}
use rlox.RloxVerify.Scoring.{adapter_config, reward_func-adapter}

-- MBPP with three rows, found by its second name only, and a shuffle that changes nothing
abbrev rows : List MbppRow
rows =
    record { test_list = some ((97 ∷ []) ∷ (98 ∷ []) ∷ []); text = some (112 ∷ []) }
    ∷ record { test_list = none; text = some (113 ∷ []) }
    ∷ record { test_list = some []; text = none }
    ∷ []

abbrev by_name : String → Option (List MbppRow)
by_name name = if_second (string_eq.beq name "google-research-datasets/mbpp")
  where
    if_second : Bool → Option (List MbppRow)
    if_second true = some rows
    if_second false = none

abbrev online : Datasets
online = record {
  installed = true;
  load_dataset = by_name;
  shuffle = λ seed xs. xs;
  no_mbpp = none;
}

abbrev offline : Datasets
offline = record online { no_mbpp = some (32 ∷ 49 ∷ 10 ∷ []) }

length-range : (start n : ℕ) → length (range start n) ≡ n
length-range start zero = refl
length-range start (suc n) = omega (arith, length-range (suc start) n)

range_bounded : (start n top : ℕ) → start + n ≤ top → All (λ i. i < top) (range start n)
range_bounded start zero top h = tt
range_bounded start (suc n) top h = (omega arith, range_bounded (suc start) n top (omega arith))

online-IsShuffle : IsShuffle online.shuffle
online-IsShuffle = record {
  keeps_length = λ seed n. length-range 0 n;
  in_range = λ seed n. range_bounded 0 n n (omega arith);
}

build_dataset-IsDataset_example :
    (es : List (Example online)) × (build_dataset online (some 2) true ≡ some es)
    × IsDataset online (some 2) true es
build_dataset-IsDataset_example = build_dataset-IsDataset online (some 2) true refl online-IsShuffle

tests_joined :
    (mbpp_problem (record { test_list = some ((97 ∷ []) ∷ (98 ∷ []) ∷ []); text = none })).tests
    ≡ 97 ∷ 10 ∷ 98 ∷ 10 ∷ []
unfolding mbpp_problem
tests_joined = refl

-- Forty-eight problems are embedded, fewer than the fifty that are asked for by default.
length-fallback : length fallback ≡ 48
unfolding fallback
length-fallback = refl

abbrev config : RloxVerifyConfig counting
config = record {
  rollout_backend = "in_loop";
  rlox_server_url = [];
  per_sample_timeout_secs = 30;
  group_size = 8;
  adversarial_fraction = 1;
  adversarial_corpus_path = none;
  seed = 42;
}

abbrev sample : AdversarialSample
sample = record {
  id = 1 ∷ [];
  category = 2 ∷ [];
  language = 3 ∷ [];
  code = 4 ∷ [];
  expected_exit = 5 ∷ [];
}

abbrev injector : AdversarialInjector counting ℕ
injector = record {
  corpus = record { samples = sample ∷ []; categories = (2 ∷ []) ∷ [] };
  fraction = 1;
  rng = 5;
}

abbrev random : ℕ → ℕ × ℕ
random r = (r, suc r)

abbrev first : ℕ → ℕ → ℕ × ℕ
first n r = (0, suc r)

-- A program that is more than eleven characters long succeeds.
abbrev run : Text → ℕ → Process
run code timeout = returned (11 - length code)

abbrev post : Text → Payload → ℕ → Response counting
post url payload timeout = ok (some 1)

reward_func-adapter_example :
    reward_func counting ℕ random first run post config
      (some injector)
      (plain [])
      (plain [])
      (other (plain (120 ∷ [])))
      (some none)
      (121 ∷ [])
    ≡ Rewards.reward_func counting ℕ random first run post
        (adapter_config counting ℕ random first run post config)
        (some injector)
        (plain [])
        (plain [])
        (str (effective_tests (121 ∷ []) (other (plain (120 ∷ [])))))
        (some none)
reward_func-adapter_example =
    reward_func-adapter counting ℕ random first run post config (some injector) (plain [])
      (plain []) (other (plain (120 ∷ []))) (some none) (121 ∷ [])

abbrev first_example : Example offline
first_example = record {
  prompt = Messages.messages (
      Content.text
        (text_of "Write a Python function `add(a, b)` that returns the sum of two numbers.")
      ∷ []);
  answer = [];
  tests =
      text_of
        "assert add(1, 2) == 3\nassert add(-1, 1) == 0\nassert add(0, 0) == 0\nassert add(100, 200) == 300\n";
}

abbrev first_of_all : Option (List (Example offline)) → Option (Example offline)
first_of_all none = none
first_of_all (some es) = get_elem? es 0

first_built : first_of_all (build_dataset offline (some 3) true) ≡ some first_example
unfolding build_dataset load_mbpp_problems is_disabled strip lstrip is_space fallback
first_built = refl

-- A fraction above zero wants a corpus.
corpus_wanted :
    load_environment counting ℕ online
      (λ path. raised Adversarial.file_not_found)
      (λ seed. seed)
      config
      none
    ≡ raised value_error
unfolding load_environment
corpus_wanted = refl

-- Without the package datasets there is no fallback either.
package_wanted : build_dataset (record online { installed = false }) none true ≡ none
unfolding build_dataset
package_wanted = refl
