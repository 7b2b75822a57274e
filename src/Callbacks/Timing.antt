-- ===== src/Callbacks/Timing.antt =====
-- python/rlox/callbacks.py, class TimingCallback. Each hook is given the reading of the clock
-- `time.perf_counter` at its call, a float.
use rlox.Base.{
  ◌≡◌, refl, ap, ◌∙◌, Bool, true, false, Option, none, some, List, [], ◌∷◌, if◌then◌else◌, map, ◌↔◌,
  inl, inr, Bool-cases, arith,
}
use rlox.Base.Float.{Float}
use rlox.Base.Dict.{Eq, Dict, lookup, insert}
use rlox.Base.Updates.{or_else, lookup-insert}

pub data Phase : Type 0 where
  env_step gae_compute gradient_update finished : Phase

abbrev pub phase_eq : Phase → Phase → Bool
phase_eq env_step env_step = true
phase_eq gae_compute gae_compute = true
phase_eq gradient_update gradient_update = true
phase_eq finished finished = true
phase_eq _ _ = false

pub phase_eq_iff : (a b : Phase) → (phase_eq a b ≡ true) ↔ (a ≡ b)
phase_eq_iff env_step b = ground arith
phase_eq_iff gae_compute b = ground arith
phase_eq_iff gradient_update b = ground arith
phase_eq_iff finished b = ground arith

instance abbrev pub phase_key : Eq Phase
phase_key = record { beq = phase_eq; beq_iff = phase_eq_iff }

-- The hooks that only switch the phase. `on_step` also lets the training go on.
pub data Hook : Type 0 where
  on_step on_rollout_end on_train_batch on_training_end : Hook

abbrev pub phase_of : Hook → Phase
phase_of on_step = env_step
phase_of on_rollout_end = gae_compute
phase_of on_train_batch = gradient_update
phase_of on_training_end = finished

module _ (F : Float) where
  open F use {Carrier, of_ℕ, ratio, add, sub, mul, div, eq}

  pub record TimingCallback : Type 0 where
    pub phase_times : Dict Phase Carrier
    pub phase_start : Carrier
    pub current_phase : Option Phase

  abbrev pub init : TimingCallback
  init = record { phase_times = []; phase_start = of_ℕ 0; current_phase = none }

  abbrev pub or_zero : Option Carrier → Carrier
  or_zero none = of_ℕ 0
  or_zero (some x) = x

  unfoldable pub switch_phase : TimingCallback → Phase → (now : Carrier) → TimingCallback
  switch_phase c name now = elim c.current_phase [
    | none ↦ record c { current_phase = some name; phase_start = now }
    | some phase ↦
        let elapsed = sub now c.phase_start in
        record {
          phase_times =
              insert phase (add (or_zero (lookup phase c.phase_times)) elapsed) c.phase_times;
          phase_start = now;
          current_phase = some name;
        }
  ]

  unfoldable pub on_training_start : TimingCallback → (now : Carrier) → TimingCallback
  on_training_start c now = record c { phase_start = now; current_phase = some env_step }

  unfoldable pub run_hook : TimingCallback → Hook → (now : Carrier) → TimingCallback
  run_hook c hook now = switch_phase c (phase_of hook) now

  -- `sum(self._phase_times.values())`, from the left
  abbrev pub sum_times : Carrier → Dict Phase Carrier → Carrier
  sum_times acc [] = acc
  sum_times acc ((_, t) ∷ d) = sum_times (add acc t) d

  -- `v / total * 100`
  unfoldable pub summary : TimingCallback → Dict Phase Carrier
  summary c =
      let total = sum_times (of_ℕ 0) c.phase_times in
      if eq total (of_ℕ 0)
      then []
      else map (λ (k, v). (k, mul (div v total) (of_ℕ 100))) c.phase_times

  -- A training run: the hooks in the order of their calls, each with the clock's reading.
  unfoldable pub run_hooks : TimingCallback → List (Hook × Carrier) → TimingCallback
  unfolding run_hook switch_phase
  run_hooks c [] = c
  run_hooks c ((hook, now) ∷ calls) = run_hooks (run_hook c hook now) calls

  -- The periods that the phase lasted, in order: each from a call that begins it to the next call.
  -- Before the first call the phase is `current`, since `start`.
  abbrev pub periods_of : Phase → Phase → Carrier → List (Hook × Carrier) → List Carrier
  periods_of phase current start [] = []
  periods_of phase current start ((hook, now) ∷ calls) =
      let rest = periods_of phase (phase_of hook) now calls in
      if phase_eq current phase then sub now start ∷ rest else rest

  -- The float that some periods add up to, from the left, if there is one
  abbrev pub added : Option Carrier → List Carrier → Option Carrier
  added t [] = t
  added t (x ∷ xs) = added (some (add (or_zero t) x)) xs

  lookup-credited :
      (phase other : Phase) (x : Carrier) (d : Dict Phase Carrier)
      → lookup other (insert phase (add (or_zero (lookup phase d)) x) d)
        ≡ (if phase_eq phase other then some (add (or_zero (lookup other d)) x) else lookup other d)
  lookup-credited phase other x d =
      let v = add (or_zero (lookup phase d)) x in
      let inserted : lookup other (insert phase v d)
          ≡ or_else (if phase_eq phase other then some v else none) (lookup other d) =
        lookup-insert phase other v d in
      elim (Bool-cases (phase_eq phase other)) [
        | inl same ↦ rw same (
            (rw same at inserted)
            ∙ ap (λ k. some (add (or_zero (lookup k d)) x)) ((phase_eq_iff phase other).0 same))
        | inr not_same ↦ rw not_same (rw not_same at inserted)
      ]

  run_hooks-added :
      (calls : List (Hook × Carrier)) (c : TimingCallback) (phase other : Phase)
      → c.current_phase ≡ some phase
      → lookup other (run_hooks c calls).phase_times
        ≡ added (lookup other c.phase_times) (periods_of other phase c.phase_start calls)
  unfolding run_hooks run_hook switch_phase
  run_hooks-added [] c phase other e = refl
  run_hooks-added ((hook, now) ∷ calls) c phase other e =
      let x = sub now c.phase_start in
      let c₁ : TimingCallback = record {
        phase_times = insert phase (add (or_zero (lookup phase c.phase_times)) x) c.phase_times;
        phase_start = now;
        current_phase = some (phase_of hook);
      } in
      let stepped : run_hook c hook now ≡ c₁ = rw (e, switch_phase) refl in
      ap (λ (b : TimingCallback). lookup other (run_hooks b calls).phase_times) stepped
      ∙ run_hooks-added calls c₁ (phase_of hook) other refl
      ∙ ap (λ t. added t (periods_of other (phase_of hook) now calls))
          (lookup-credited phase other x c.phase_times)
      ∙ either (phase_eq phase other) x
    where
      either :
          (b : Bool) (x : Carrier)
          → added
              (if b
                then some (add (or_zero (lookup other c.phase_times)) x)
                else lookup other c.phase_times)
              (periods_of other (phase_of hook) now calls)
            ≡ added (lookup other c.phase_times) (
                if b
                then x ∷ periods_of other (phase_of hook) now calls
                else periods_of other (phase_of hook) now calls)
      either true x = refl
      either false x = refl

  -- From the start of the training on, whatever the clock reads: the time of each phase is the
  -- float sum, from zero and in order, of the periods from the calls that began it to the calls
  -- after them (for the environment phase also the one up to the first call), and a phase has no
  -- entry exactly if it had no period.
  pub timing_accounts :
      (start : Carrier) (calls : List (Hook × Carrier)) (phase : Phase)
      → lookup phase (run_hooks (on_training_start init start) calls).phase_times
        ≡ added none (periods_of phase env_step start calls)
  unfolding on_training_start
  timing_accounts start calls phase =
      run_hooks-added calls (on_training_start init start) env_step phase refl
