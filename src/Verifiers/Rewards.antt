-- ===== src/Verifiers/Rewards.antt =====
-- python/rlox_agent/verifiers_adapter.py: `run_in_loop`, `call_rlox_server`, and the reward function
-- that `load_environment` makes.
-- The subprocess and the server are arguments: what they do with a program, a request. The
-- rubric and the environment that the reward function goes into belong to other packages.
use rlox.Base.{
  ℕ, Bool, false, ◌||◌, Option, none, some, [], ◌∷◌, ◌++◌, if◌then◌else◌, ◌==◌, String, Result, ok,
  raised,
}
use rlox.Base.Float.{Float}
use rlox.Base.Dict.{string_eq, Dict, insert}
use rlox.Verifiers.Messages.{Text, Messages, extract_text}
use rlox.Verifiers.Extraction.{extract_python_code}
use rlox.Adversarial.{
  AdversarialSample, AdversarialInjector, AdversarialCorpus, Injected, kept, replaced, maybe_inject,
}
use rlox.Adversarial

-- What `subprocess.run` did: the process ended, or an exception was raised (a timeout is one).
pub data Process : Type 0 where
  returned : (returncode : ℕ) → Process
  killed : (signal : ℕ) → Process
  failed : Process

pub record RloxVerifierConfig (F : Float) : Type 0 where
  pub rollout_backend : String
  pub rlox_server_url : Text
  pub per_sample_timeout_secs : F.Carrier
  pub group_size : ℕ
  pub adversarial_fraction : F.Carrier
  pub adversarial_corpus_path : Option Text
  pub seed : ℕ

-- The JSON object that is posted.
pub record Payload : Type 0 where
  pub code : Text
  pub tests : Text
  pub is_adversarial : Bool

pub data Error : Type 0 where
  value_error : Error
  corpus_error : Adversarial.Error → Error

-- An answer is a text, or messages.
pub data Answer : Type 0 where
  str : Text → Answer
  other : Messages → Answer

module _ (F : Float) where
  -- The entry "reward" of the response, if it has one; `raised` is any exception on the way.
  abbrev pub Response : Type 0
  Response = Result Unit (Option F.Carrier)

  unfoldable pub run_in_loop : (Text → F.Carrier → Process) → Text → Text → F.Carrier → F.Carrier
  run_in_loop run code tests timeout = elim (run (code ++ 10 ∷ tests) timeout) [
    | returned c ↦ if c == 0 then F.of_ℕ 1 else F.of_ℕ 0
    | killed _ ↦ F.of_ℕ 0
    | failed ↦ F.of_ℕ 0
  ]

  -- "/verify"
  abbrev verify : Text
  verify = 47 ∷ 118 ∷ 101 ∷ 114 ∷ 105 ∷ 102 ∷ 121 ∷ []

  unfoldable pub call_rlox_server :
      (Text → Payload → F.Carrier → Response) → Text → Text → Bool → Text → F.Carrier → F.Carrier
  call_rlox_server post code tests is_adversarial server_url timeout =
      elim (post (server_url ++ verify)
        (record { code = code; tests = tests; is_adversarial = is_adversarial }) timeout) [
          | raised _ ↦ F.of_ℕ 0
          | ok none ↦ F.of_ℕ 0
          | ok (some r) ↦ r
        ]

  -- The `state` of a call: `none` if it is no dict, else its "reward_funcs_results", if that is a
  -- dict.
  abbrev pub State : Type 0
  State = Option (Option (Dict String F.Carrier))

  unfoldable pub write_result : F.Carrier → State → State
  write_result r none = none
  write_result r (some none) = some (some (("_reward_func", r) ∷ []))
  write_result r (some (some d)) = some (some (insert "_reward_func" r d))

  module _ (Rng : Type 0) (random : Rng → F.Carrier × Rng) (choice : ℕ → Rng → ℕ × Rng)
      (run : Text → F.Carrier → Process) (post : Text → Payload → F.Carrier → Response) where
    -- The task that an injector sees.
    abbrev pub Task : Type 0
    Task = Messages × Answer

    unfoldable pub code_of : Messages → Injected Task → Text
    unfolding extract_python_code extract_text
    code_of completion (replaced s) = s.code
    code_of completion (kept _) = extract_python_code (extract_text completion)

    unfoldable pub tests_of : Answer → Injected Task → Text
    unfolding extract_text
    tests_of answer (replaced s) = []
    tests_of (str t) (kept _) = t
    tests_of (other ms) (kept _) = extract_text ms

    unfoldable pub dispatch : RloxVerifierConfig F → Text → Text → Bool → F.Carrier
    unfolding run_in_loop call_rlox_server
    dispatch c code tests is_adversarial =
        if string_eq.beq c.rollout_backend "rlox"
        then call_rlox_server post code tests is_adversarial c.rlox_server_url
            c.per_sample_timeout_secs
        else run_in_loop run code tests c.per_sample_timeout_secs

    abbrev pub score :
        RloxVerifierConfig F → Messages → Answer → State → Injected Task → Bool → F.Carrier × State
    score c completion answer state task flag =
        let reward = dispatch c (code_of completion task) (tests_of answer task) flag in
        (reward, write_result reward state)

    -- `_reward_func`: the reward, the state after it and the injector after it.
    unfoldable pub reward_func :
        RloxVerifierConfig F
        → Option (AdversarialInjector F Rng)
        → Messages
        → Messages
        → Answer
        → State
        → Result Adversarial.Error ((F.Carrier × State) × Option (AdversarialInjector F Rng))
    unfolding dispatch write_result code_of tests_of maybe_inject
    reward_func c none prompt completion answer state =
        ok (score c completion answer state (kept (prompt, answer)) false, none)
    reward_func c (some i) prompt completion answer state =
        elim (maybe_inject F Rng random choice {Task = Messages × Answer} i (prompt, answer)) [
          | raised e ↦ raised e
          | ok ((task, flag), i') ↦ ok (score c completion answer state task flag, some i')
        ]

  -- The injector that `load_environment` makes: none at a fraction of zero. `load` is
  -- `AdversarialCorpus.load` of the path, `seeded` is `random.Random`.
  unfoldable pub load_environment :
      (Rng : Type 0)
      → (load : Text → Result Adversarial.Error AdversarialCorpus) → (seeded : ℕ → Rng)
      → RloxVerifierConfig F
      → Result Error (Option (AdversarialInjector F Rng))
  load_environment Rng load seeded c =
      if string_eq.beq c.rollout_backend "in_loop" || string_eq.beq c.rollout_backend "rlox"
      then if F.lt (F.of_ℕ 0) c.adversarial_fraction
        then elim c.adversarial_corpus_path [
          | none ↦ raised value_error
          | some path ↦ elim (load path) [
            | raised e ↦ raised (corpus_error e)
            | ok corpus ↦ ok (
                some (record {
                  corpus = corpus;
                  fraction = c.adversarial_fraction;
                  rng = seeded c.seed;
                }))
          ]
        ]
        else ok none
      else raised value_error
