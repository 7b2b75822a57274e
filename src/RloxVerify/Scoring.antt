-- ===== src/RloxVerify/Scoring.antt =====
-- environments/rlox_verify/rlox_verify/__init__.py: the reward function beside the one of
-- python/rlox_agent/verifiers_adapter.py.
use rlox.Base.{
  ℕ, ◌≡◌, refl, sym, ap, ◌∙◌, ◌⊎◌, inl, inr, Bool, true, false, Option, none, some, get_elem?,
  Bool-cases, Option-cases, Result, ok, raised, length,
}
use rlox.Base.Float.{Float}
use rlox.Base.Dict.{string_eq}
use rlox.Verifiers.Messages.{Text, Messages}
use rlox.Verifiers.Rewards.{
  Process, Payload, Response, State, write_result, Answer, str, other, code_of, tests_of, dispatch,
  score,
}
use rlox.Verifiers.Rewards
use rlox.Adversarial.{
  AdversarialSample, AdversarialInjector, Injected, kept, replaced, choose, maybe_inject,
}
use rlox.Adversarial
use rlox.RloxVerify.Environment.{
  RloxVerifyConfig, effective_tests, program_of, backend_reward, rewarded, reward_func,
}

module _ (F : Float) (Rng : Type 0) (random : Rng → F.Carrier × Rng) (choice : ℕ → Rng → ℕ × Rng)
    (run : Text → F.Carrier → Process) (post : Text → Payload → F.Carrier → Response F) where
  -- The configuration of the adapter with the same entries
  abbrev pub adapter_config : RloxVerifyConfig F → Rewards.RloxVerifierConfig F
  adapter_config c = record {
    rollout_backend = c.rollout_backend;
    rlox_server_url = c.rlox_server_url;
    per_sample_timeout_secs = c.per_sample_timeout_secs;
    group_size = c.group_size;
    adversarial_fraction = c.adversarial_fraction;
    adversarial_corpus_path = c.adversarial_corpus_path;
    seed = c.seed;
  }

  abbrev injected :
      AdversarialInjector F Rng
      → Messages × Answer
      → Result Adversarial.Error ((Injected (Messages × Answer) × Bool) × AdversarialInjector F Rng)
  injected i t = maybe_inject F Rng random choice {Task = Messages × Answer} i t

  -- What the injector decides does not depend on the task.
  data Decision (i : AdversarialInjector F Rng) (t u : Messages × Answer) : Type 0 where
    fails :
        (e : Adversarial.Error) → injected i t ≡ raised e → injected i u ≡ raised e → Decision i t u
    replaces :
        (s : AdversarialSample) (i' : AdversarialInjector F Rng)
        → injected i t ≡ ok ((replaced s, true), i')
        → injected i u ≡ ok ((replaced s, true), i')
        → Decision i t u
    keeps :
        (i' : AdversarialInjector F Rng)
        → injected i t ≡ ok ((kept t, false), i')
        → injected i u ≡ ok ((kept u, false), i')
        → Decision i t u

  chosen :
      (i : AdversarialInjector F Rng)
      → ((e : Adversarial.Error) × (choose F Rng random choice {Task = Messages × Answer} i
            ≡ raised e))
        ⊎ ((s : AdversarialSample) × (i' : AdversarialInjector F Rng) × (choose F Rng random choice
                {Task = Messages × Answer} i
              ≡ ok ((replaced s, true), i')))
  unfolding choose
  chosen i =
      elim (Option-cases (get_elem? i.corpus.samples (choice (length i.corpus.samples) i.rng).0)) [
        | inl e ↦ inl (Adversarial.index_error, rw (choose, e) refl)
        | inr (s, e) ↦
            inr (
              s,
              record i { rng = (choice (length i.corpus.samples) i.rng).1 },
              rw (choose, e) refl,
            )
      ]

  decision : (i : AdversarialInjector F Rng) (t u : Messages × Answer) → Decision i t u
  unfolding maybe_inject
  decision i t u = elim (Bool-cases (F.le i.fraction (F.of_ℕ 0))) [
    | inl low ↦ keeps i (rw low refl) (rw low refl)
    | inr above ↦ elim (Bool-cases (F.le (F.of_ℕ 1) i.fraction)) [
      | inl high ↦ elim (chosen i) [
        | inl (e, c) ↦ fails e (rw (above, high) c) (rw (above, high) c)
        | inr (s, i', c) ↦ replaces s i' (rw (above, high) c) (rw (above, high) c)
      ]
      | inr below ↦
          let drawn : AdversarialInjector F Rng = record i { rng = (random i.rng).1 } in
          elim (Bool-cases (F.lt (random i.rng).0 i.fraction)) [
            | inl hit ↦ elim (chosen drawn) [
              | inl (e, c) ↦ fails e (rw (above, below, hit) c) (rw (above, below, hit) c)
              | inr (s, i', c) ↦ replaces s i' (rw (above, below, hit) c) (rw (above, below, hit) c)
            ]
            | inr passed ↦
                keeps drawn (rw (above, below, passed) refl) (rw (above, below, passed) refl)
          ]
    ]
  ]

  module _ (c : RloxVerifyConfig F) (completion : Messages) (answer : Answer) (state : State F)
      (tests : Text) where
    abbrev Outcome : Type 0
    Outcome = Result Adversarial.Error ((F.Carrier × State F) × Option (AdversarialInjector F Rng))

    abbrev Drawn : Type 0
    Drawn =
        Result Adversarial.Error ((Injected (Messages × Answer) × Bool) × AdversarialInjector F Rng)

    -- The outcome here and in the adapter, from what the injector gave
    abbrev here : Drawn → Outcome
    here (raised e) = raised e
    here (ok ((task, flag), i')) =
        ok
          (rewarded F Rng random choice run post c completion answer state tests task flag, some i')

    abbrev there : Drawn → Outcome
    there (raised e) = raised e
    there (ok ((task, flag), i')) = ok (
      score F Rng random choice run post (adapter_config c) completion
          (str (effective_tests tests answer)) state task flag,
      some i',
    )

  -- The reward function is the adapter's, with the same configuration, injector, messages and state,
  -- on the answer that is the tests in force: the tests of the row, or where they are empty the
  -- answer, if it is a text.
  pub reward_func-adapter :
      (c : RloxVerifyConfig F) (i : Option (AdversarialInjector F Rng))
      (prompt completion : Messages) (answer : Answer) (state : State F) (tests : Text)
      → reward_func F Rng random choice run post c i prompt completion answer state tests
        ≡ Rewards.reward_func F Rng random choice run post
            (adapter_config c)
            i
            prompt
            completion
            (str (effective_tests tests answer))
            state
  unfolding reward_func Rewards.reward_func program_of backend_reward dispatch code_of tests_of
  reward_func-adapter c none prompt completion answer state tests = refl
  reward_func-adapter c (some i) prompt completion answer state tests =
      elim (decision i (prompt, answer) (prompt, str (effective_tests tests answer))) [
        | fails e a b ↦
            ap (here c completion answer state tests) a
            ∙ sym (ap (there c completion answer state tests) b)
        | replaces s i' a b ↦
            ap (here c completion answer state tests) a
            ∙ sym (ap (there c completion answer state tests) b)
        | keeps i' a b ↦
            ap (here c completion answer state tests) a
            ∙ sym (ap (there c completion answer state tests) b)
      ]
