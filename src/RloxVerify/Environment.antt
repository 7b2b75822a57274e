-- ===== src/RloxVerify/Environment.antt =====
-- environments/rlox_verify/rlox_verify/__init__.py: `load_environment` and the reward function that
-- it makes, on the helpers of python/rlox_agent/verifiers_adapter.py.
-- Rubric and SingleTurnEnv belong to the package `verifiers`: they keep what they are given.
use rlox.Base.{
  ℕ, Bool, true, false, ◌||◌, Option, none, some, List, [], ◌∷◌, if◌then◌else◌, String, Result, ok,
  raised,
}
use rlox.Base.Float.{Float}
use rlox.Base.Dict.{string_eq}
use rlox.Verifiers.Messages.{Text, Messages, extract_text}
use rlox.Verifiers.Extraction.{extract_python_code}
use rlox.Verifiers.Rewards.{
  Process, Payload, Response, State, write_result, run_in_loop, call_rlox_server, Answer, str,
  other,
}
use rlox.Adversarial.{
  AdversarialCorpus, AdversarialInjector, Injected, kept, replaced, maybe_inject,
}
use rlox.Adversarial
use rlox.RloxVerify.Dataset.{Datasets, Example, build_dataset}

-- The arguments of `load_environment`, in the order of RloxVerifyConfig, which has the same.
pub record RloxVerifyConfig (F : Float) : Type 0 where
  pub rollout_backend : String
  pub rlox_server_url : Text
  pub per_sample_timeout_secs : F.Carrier
  pub group_size : ℕ
  pub adversarial_fraction : F.Carrier
  pub adversarial_corpus_path : Option Text
  pub seed : ℕ

-- `tests if tests else (answer if isinstance(answer, str) else "")`
unfoldable pub effective_tests : Text → Answer → Text
effective_tests [] (str t) = t
effective_tests [] (other ms) = []
effective_tests (c ∷ t) answer = c ∷ t

module _ (F : Float) (Rng : Type 0) (random : Rng → F.Carrier × Rng) (choice : ℕ → Rng → ℕ × Rng)
    (run : Text → F.Carrier → Process) (post : Text → Payload → F.Carrier → Response F) where
  -- The code and the tests that are run
  unfoldable pub program_of : Messages → Answer → Text → Injected (Messages × Answer) → Text × Text
  unfolding effective_tests
  program_of completion answer tests (replaced s) = (s.code, [])
  program_of completion answer tests (kept _) =
      (extract_python_code (extract_text completion), effective_tests tests answer)

  unfoldable pub backend_reward : RloxVerifyConfig F → Text → Text → Bool → F.Carrier
  unfolding run_in_loop call_rlox_server
  backend_reward c code tests is_adversarial =
      if string_eq.beq c.rollout_backend "rlox"
      then call_rlox_server F post code tests is_adversarial c.rlox_server_url
          c.per_sample_timeout_secs
      else run_in_loop F run code tests c.per_sample_timeout_secs

  abbrev pub rewarded :
      RloxVerifyConfig F
      → Messages
      → Answer
      → State F
      → Text
      → Injected (Messages × Answer)
      → Bool
      → F.Carrier × State F
  rewarded c completion answer state tests task flag =
      let p = program_of completion answer tests task in
      let reward = backend_reward c p.0 p.1 flag in (reward, write_result F reward state)

  -- `_reward_func`: the reward, the state after it and the injector after it.
  unfoldable pub reward_func :
      RloxVerifyConfig F
      → Option (AdversarialInjector F Rng)
      → Messages
      → Messages
      → Answer
      → State F
      → Text
      → Result Adversarial.Error ((F.Carrier × State F) × Option (AdversarialInjector F Rng))
  unfolding program_of backend_reward write_result maybe_inject
  reward_func c none prompt completion answer state tests =
      ok (rewarded c completion answer state tests (kept (prompt, answer)) false, none)
  reward_func c (some i) prompt completion answer state tests =
      elim (maybe_inject F Rng random choice {Task = Messages × Answer} i (prompt, answer)) [
        | raised e ↦ raised e
        | ok ((task, flag), i') ↦ ok (rewarded c completion answer state tests task flag, some i')
      ]

-- What the environment is made of: its dataset, the injector of its reward function, and
-- `sampling_args["n"]`.
pub record Environment (F : Float) (Rng : Type 0) (D : Datasets) : Type 0 where
  pub dataset : List (Example D)
  pub injector : Option (AdversarialInjector F Rng)
  pub n : ℕ

pub data LoadError : Type 0 where
  value_error import_error : LoadError
  corpus_error : Adversarial.Error → LoadError

module _ (F : Float) (Rng : Type 0) (D : Datasets) where
  -- The dataset goes in after the injector was made.
  unfoldable pub environment :
      RloxVerifyConfig F
      → Option ℕ
      → Option (AdversarialInjector F Rng)
      → Result LoadError (Environment F Rng D)
  unfolding build_dataset
  environment c n_problems injector = elim (build_dataset D n_problems true) [
    | none ↦ raised import_error
    | some es ↦ ok (record { dataset = es; injector = injector; n = c.group_size })
  ]

  -- `load` is `AdversarialCorpus.load` of a path, `seeded` is `random.Random`.
  unfoldable pub load_environment :
      (load : Text → Result Adversarial.Error AdversarialCorpus)
      → (seeded : ℕ → Rng) → RloxVerifyConfig F
      → Option ℕ
      → Result LoadError (Environment F Rng D)
  unfolding environment
  load_environment load seeded c n_problems =
      if string_eq.beq c.rollout_backend "in_loop" || string_eq.beq c.rollout_backend "rlox"
      then if F.lt (F.of_ℕ 0) c.adversarial_fraction
        then elim c.adversarial_corpus_path [
          | none ↦ raised value_error
          | some path ↦ elim (load path) [
            | raised e ↦ raised (corpus_error e)
            | ok corpus ↦ environment c n_problems (
                some (record {
                  corpus = corpus;
                  fraction = c.adversarial_fraction;
                  rng = seeded c.seed;
                }))
          ]
        ]
        else environment c n_problems none
      else raised value_error
