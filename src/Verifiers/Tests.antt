-- ===== src/Verifiers/Tests.antt =====
-- python/rlox_agent/verifiers_adapter.py on small inputs.
use rlox.Base.{◌≡◌, refl, List, [], ◌∷◌, arith}
use rlox.Verifiers.Messages.{
  Text, plain, messages, missing, blocks, dict_block, text_block, other_block, extract_text,
  join_lines, strip, lstrip, is_space,
}
use rlox.Base.{ℕ, suc, some, none, ok, raised}
use rlox.Base.Dict.{Dict, lookup, string_eq}
use rlox.Base.Samples.{counting}
use rlox.Base.{String}
use rlox.Adversarial.{AdversarialSample, AdversarialInjector}
use rlox.Verifiers.Rewards.{
  Process, returned, RloxVerifierConfig, Payload, Response, str, reward_func, load_environment,
  value_error,
}
use rlox.Verifiers.Scoring.{IsScored, reward_func-IsScored}
use rlox.Verifiers.Extraction.{
  extract_python_code, findall, find_from, match_block, until_fence, after_breaks, strip_prefix,
  last_of,
}
use rlox.Base.{◌++◌, true}
use rlox.Verifiers.Extraction.{splitlines, is_break, starts_with_any, keywords}
use rlox.Verifiers.Extraction.Unfenced.{HasNoCode, unfenced_extracted}
use rlox.Verifiers.Extraction.Blocks.{completion, last_code, last_block_extracted}

extract_text_parts :
    extract_text (
      messages (
        missing
        ∷ blocks (
            dict_block none ∷ text_block (97 ∷ []) ∷ other_block ∷ dict_block (some (98 ∷ [])) ∷ [])
        ∷ []))
    ≡ 10 ∷ 10 ∷ 97 ∷ 10 ∷ 98 ∷ []
unfolding extract_text join_lines
extract_text_parts = refl

abbrev two_blocks : List (Text × Text)
two_blocks = (104 ∷ [], 120 ∷ []) ∷ (10 ∷ [], 32 ∷ 121 ∷ 10 ∷ []) ∷ []

-- The second of two blocks, without its white space.
extract_two : extract_python_code (completion two_blocks []) ≡ 121 ∷ []
unfolding extract_python_code findall find_from match_block until_fence after_breaks strip_prefix
    last_of strip lstrip is_space
extract_two = refl

last_block_extracted_example :
    extract_python_code (completion two_blocks (98 ∷ []))
    ≡ strip (last_code (104 ∷ [], 120 ∷ []) ((10 ∷ [], 32 ∷ 121 ∷ 10 ∷ []) ∷ []))
last_block_extracted_example =
    last_block_extracted (104 ∷ [], 120 ∷ []) ((10 ∷ [], 32 ∷ 121 ∷ 10 ∷ []) ∷ []) (98 ∷ [])
      (((refl, tt), (refl, tt)), (((refl, tt), (refl, (refl, (refl, tt)))), tt)) (refl, tt)

abbrev config : RloxVerifierConfig counting
config = record {
  rollout_backend = "in_loop";
  rlox_server_url = [];
  per_sample_timeout_secs = 30;
  group_size = 8;
  adversarial_fraction = 1;
  adversarial_corpus_path = none;
  seed = 42;
}

-- A fraction above zero wants a corpus.
corpus_wanted :
    load_environment counting ℕ (λ p. ok (record { samples = []; categories = [] })) (λ n. n) config
    ≡ raised value_error
unfolding load_environment
corpus_wanted = refl

abbrev sample : AdversarialSample
sample = record {
  id = 1 ∷ [];
  category = 2 ∷ [];
  language = 3 ∷ [];
  code = 4 ∷ [];
  expected_exit = 5 ∷ [];
}

abbrev injector : AdversarialInjector counting ℕ
injector = record {
  corpus = record { samples = sample ∷ []; categories = (2 ∷ []) ∷ [] };
  fraction = 1;
  rng = 5;
}

abbrev random : ℕ → ℕ × ℕ
random r = (r, suc r)

abbrev first : ℕ → ℕ → ℕ × ℕ
first n r = (0, suc r)

abbrev run : Text → ℕ → Process
run code timeout = returned 1

abbrev post : Text → Payload → ℕ → Response counting
post url payload timeout = ok (some 1)

reward_func-IsScored_example :
    (reward : ℕ) × (after : Dict String ℕ) × (rng : ℕ) × (reward_func counting ℕ random first run
        post config
        (some injector)
        (plain [])
        (plain (120 ∷ []))
        (str [])
        (some none)
      ≡ ok ((reward, some (some after)), some (record injector { rng = rng })))
    × (lookup "_reward_func" after ≡ some reward)
    × IsScored counting ℕ random first run post config injector
        (plain [])
        (plain (120 ∷ []))
        (str [])
        reward
reward_func-IsScored_example =
    reward_func-IsScored counting ℕ random first run post config injector (plain [])
      (plain (120 ∷ [])) (str []) none (λ n r h. h) (omega arith)

-- "hi", and behind it the line "def f"
abbrev def_line : Text
def_line = 100 ∷ 101 ∷ 102 ∷ 32 ∷ 102 ∷ []

abbrev unfenced : Text
unfenced = 104 ∷ 105 ∷ 10 ∷ def_line

unfenced-lines :
    (splitlines unfenced ≡ (104 ∷ 105 ∷ []) ∷ [] ++ def_line ∷ [])
    × (HasNoCode ((104 ∷ 105 ∷ []) ∷ []) × (starts_with_any keywords def_line ≡ true))
unfolding splitlines is_break starts_with_any strip_prefix
unfenced-lines = (refl, ((refl, tt), refl))

unfenced_extracted_example : extract_python_code unfenced ≡ strip (join_lines (def_line ∷ []))
unfenced_extracted_example =
    unfenced_extracted unfenced ((104 ∷ 105 ∷ []) ∷ []) (def_line ∷ [])
      (refl, (refl, (refl, (refl, (refl, (refl, (refl, (refl, tt)))))))) unfenced-lines.0
      unfenced-lines.1.0 unfenced-lines.1.1
