-- ===== src/Verifiers/Scoring.antt =====
-- python/rlox_agent/verifiers_adapter.py: what the reward function runs, and where it leaves the reward.
use rlox.Base.{
  ℕ, ◌≡◌, refl, Bool, true, false, Option, none, some, [], ◌∷◌, ◌⊎◌, inl, inr, length, get_elem?,
  String, ok, ◌<◌,
}
use rlox.Base.Float.{Float}
use rlox.Base.Dict.{string_eq, Dict, lookup, insert, lookup-insert_self}
use rlox.Verifiers.Messages.{Text, Messages, extract_text}
use rlox.Verifiers.Extraction.{extract_python_code}
use rlox.Verifiers.Rewards.{
  Process, RloxVerifierConfig, Payload, Answer, Response, State, write_result, code_of, tests_of,
  dispatch, score, reward_func,
}
use rlox.Adversarial.{AdversarialSample, AdversarialInjector, Injected, kept, replaced}
use rlox.Adversarial.Injection.{IsChoice, IsInjection, maybe_inject-IsInjection}

module _ (F : Float) (Rng : Type 0) (random : Rng → F.Carrier × Rng) (choice : ℕ → Rng → ℕ × Rng)
    (run : Text → F.Carrier → Process) (post : Text → Payload → F.Carrier → Response F) where
  -- The reward of a program and tests, by the configured backend.
  abbrev pub reward_of : RloxVerifierConfig F → Text → Text → Bool → F.Carrier
  reward_of c code tests flag = dispatch F Rng random choice run post c code tests flag

  abbrev own_tests : Answer → Messages → Text
  own_tests answer prompt = tests_of F Rng random choice run post answer (kept (prompt, answer))

  -- A sample of the corpus, without tests and flagged, or the completion's code with the answer's
  -- tests, not flagged.
  abbrev pub IsScored :
      RloxVerifierConfig F
      → AdversarialInjector F Rng
      → Messages
      → Messages
      → Answer
      → F.Carrier
      → Type 0
  IsScored c i prompt completion answer reward =
      ((s : AdversarialSample) × (k : ℕ) × (get_elem? i.corpus.samples k ≡ some s)
        × (reward ≡ reward_of c s.code [] true))
      ⊎ (reward
          ≡ reward_of c (extract_python_code (extract_text completion)) (own_tests answer prompt)
              false)

  write_result-lookup :
      (r : F.Carrier) (results : Option (Dict String F.Carrier))
      → (after : Dict String F.Carrier) × (write_result F r (some results) ≡ some (some after))
        × (lookup "_reward_func" after ≡ some r)
  unfolding write_result
  write_result-lookup r none = (("_reward_func", r) ∷ [], refl, refl)
  write_result-lookup r (some d) =
      (insert "_reward_func" r d, refl, lookup-insert_self "_reward_func" r d)

  score-IsScored :
      (c : RloxVerifierConfig F) (i : AdversarialInjector F Rng) (prompt completion : Messages)
      (answer : Answer) (state : State F) (r : Injected (Messages × Answer) × Bool)
      → IsInjection F Rng random choice (Messages × Answer) i (prompt, answer) r
      → IsScored c i prompt completion answer
          (score F Rng random choice run post c completion answer state r.0 r.1).0
  unfolding code_of tests_of
  score-IsScored c i prompt completion answer state (kept t, flag) h = inr (rw (h.0, h.1.0) refl)
  score-IsScored c i prompt completion answer state (replaced s, flag) h =
      inl (s, h.1.0.0, h.1.0.1, rw h.0 refl)

  -- With an injector whose corpus has samples, a `random.choice` that gives an element of a list
  -- that has elements, and a `state` that is a dict: the reward function returns, whatever the
  -- subprocess and the server do; the reward is what the backend gives a sample of the corpus,
  -- run without tests and flagged as adversarial, or the code of the completion, run with the
  -- answer's tests and not flagged; and the state holds the reward under the function's name.
  pub reward_func-IsScored :
      (c : RloxVerifierConfig F) (i : AdversarialInjector F Rng) (prompt completion : Messages)
      (answer : Answer) (results : Option (Dict String F.Carrier))
      → IsChoice F Rng random choice (Messages × Answer)
      → 0 < length i.corpus.samples
      → (reward : F.Carrier) × (after : Dict String F.Carrier) × (rng : Rng) × (reward_func F Rng
            random choice run post c
            (some i)
            prompt
            completion
            answer
            (some results)
          ≡ ok ((reward, some (some after)), some (record i { rng = rng })))
        × (lookup "_reward_func" after ≡ some reward)
        × IsScored c i prompt completion answer reward
  unfolding reward_func
  reward_func-IsScored c i prompt completion answer results fair h =
      let (r, rng, call, injected) =
        maybe_inject-IsInjection F Rng random choice (Messages × Answer) i (prompt, answer) fair
          h in
      let reward =
        (score F Rng random choice run post c completion answer (some results) r.0 r.1).0 in
      let (after, written, found) = write_result-lookup reward results in
      (
        reward,
        after,
        rng,
        rw (reward_func, call, written) refl,
        found,
        score-IsScored c i prompt completion answer (some results) r injected,
      )
