-- ===== src/Callbacks/Evaluation/Best.antt =====
-- python/rlox/callbacks.py, class EvalCallback: which mean reward counts as the best.
use rlox.Base.{
  ℕ, ◌%◌, ◌≡◌, refl, true, false, Option, none, some, List, [], ◌∷◌, ◌++◌, ap, ◌⊎◌, inl, inr,
  Bool-cases, Option-cases, arith, ◌∙◌, ◌≢◌, subst, All, All-append, String, length, ◌==◌,
  append_assoc, sym,
}
use rlox.Base.Float.{Float, IsStrictOrder}
use rlox.Callbacks.Kwargs.{next_step}
use rlox.Callbacks.Evaluation.{
  Gym, Algo, EvalCallback, Outcome, nonempty, set_training, play_episodes, mean_reward, finish,
  evaluate, choose_env, on_step, act,
}

module _ (F : Float) (G : Gym F) where
  open F use {Carrier}
  open G use {Env, Obs, Act}

  module _ (fuel : ℕ) (c : EvalCallback F G) (a : Algo Obs Act) (predict : Obs → Act) (env : Env)
      {o : Outcome F G} where
    evaluate-none :
        play_episodes F G fuel c.n_eval_episodes (act F G (set_training F G false a) predict) env
          ≡ none
        → evaluate F G fuel c a predict env ≢ some o
    unfolding evaluate
    evaluate-none p e = ground (arith, p)

    evaluate-some :
        {env' : Env} {rewards : List Carrier}
        → play_episodes F G fuel c.n_eval_episodes (act F G (set_training F G false a) predict) env
          ≡ some (env', rewards)
        → evaluate F G fuel c a predict env ≡ some o
        → finish F G c (set_training F G true (set_training F G false a)) env' rewards ≡ o
    unfolding evaluate
    evaluate-some p e = ground (arith, p)

  -- A call of the hook only counts the step, or it evaluates.
  on_step_inversion :
      (fuel : ℕ) (c : EvalCallback F G) (step : Option ℕ) (algo : Option (Algo Obs Act))
      {o : Outcome F G}
      → on_step F G fuel c step algo ≡ some o
      → let c' = record c { step_count = next_step step c.step_count } in
        (o.callback ≡ c')
        ⊎ ((a : Algo Obs Act) × (predict : Obs → Act) × (env : Env) × (evaluate F G fuel c' a
                predict env
              ≡ some o))
  unfolding on_step
  on_step_inversion fuel c step none e = inl (ground arith)
  on_step_inversion fuel c step (some a) e = elim (Bool-cases (c.eval_freq == 0)) [
    | inl fault ↦ inl (ground (arith, fault))
    | inr fine ↦ elim (Bool-cases (next_step step c.step_count % c.eval_freq == 0)) [
      | inr other ↦ inl (ground (arith, fine, other))
      | inl due ↦ elim (Option-cases a.predict) [
        | inl lacks ↦ inl (ground (arith, fine, due, lacks))
        | inr (predict, can) ↦ elim (Option-cases (choose_env F G c.eval_env a.env_id)) [
          | inl lacks ↦ inl (ground (arith, fine, due, can, lacks))
          | inr (env, has) ↦ inr (a, predict, env, ground (arith, fine, due, can, has))
        ]
      ]
    ]
  ]

module _ (F : Float) (G : Gym F) (order : IsStrictOrder F) where
  open F use {Carrier, neg_inf, lt}
  open G use {Env, Obs, Act}
  open order use {lt_irrefl, lt_trans}

  -- No recorded result is above the best reward, which is one of them or still minus infinity.
  abbrev pub IsBestOf : Carrier → List (ℕ × Carrier) → Type 0
  IsBestOf best results =
      All (λ e. lt best e.1 ≡ false) results
      × ((best ≡ neg_inf)
          ⊎ ((at : ℕ) × (before : List (ℕ × Carrier)) × (after : List (ℕ × Carrier)) × (results
                ≡ before ++ (at, best) ∷ after)))

  -- What is not above the old best reward is not above a better one.
  raise_best :
      (old new : Carrier) (rs : List (ℕ × Carrier))
      → lt old new ≡ true
      → All (λ e. lt old e.1 ≡ false) rs
      → All (λ e. lt new e.1 ≡ false) rs
  raise_best old new [] up h = tt
  raise_best old new (e ∷ rs) up h =
      (ground (arith, lt_trans old new e.1), raise_best old new rs up h.1)

  IsBestOf-better :
      (best mean : Carrier) (at : ℕ) (results : List (ℕ × Carrier))
      → IsBestOf best results
      → lt best mean ≡ true
      → IsBestOf mean (results ++ (at, mean) ∷ [])
  IsBestOf-better best mean at results h up = (
    All-append (λ e. lt mean e.1 ≡ false) results ((at, mean) ∷ [])
        (raise_best best mean results up h.0) (lt_irrefl mean, tt),
    inr (at, results, [], refl),
  )

  IsBestOf-other :
      (best mean : Carrier) (at : ℕ) (results : List (ℕ × Carrier))
      → IsBestOf best results
      → lt best mean ≡ false
      → IsBestOf best (results ++ (at, mean) ∷ [])
  IsBestOf-other best mean at results (high, inl none_yet) stay = (
    All-append (λ e. lt best e.1 ≡ false) results ((at, mean) ∷ []) high (stay, tt),
    inl none_yet,
  )
  IsBestOf-other best mean at results (high, inr (at', before, after, split)) stay = (
    All-append (λ e. lt best e.1 ≡ false) results ((at, mean) ∷ []) high (stay, tt),
    inr (
      at',
      before,
      after ++ (at, mean) ∷ [],
      ap (λ l. l ++ (at, mean) ∷ []) split
          ∙ append_assoc before ((at', best) ∷ after) ((at, mean) ∷ []),
    ),
  )

  abbrev pub IsBest : String → EvalCallback F G → Type 0
  IsBest path c = IsBestOf c.best_reward c.eval_results × (c.best_model_path ≡ some path)

  finish-IsBest :
      (path : String) (c : EvalCallback F G) (a : Algo Obs Act) (env : Env) (rewards : List Carrier)
      → nonempty path ≡ true
      → IsBest path c
      → IsBest path (finish F G c a env rewards).callback
  unfolding finish
  finish-IsBest path c a env rewards full (h, e) =
      let mean = mean_reward F G rewards in
      elim (Bool-cases (length rewards == 0)) [
        | inl empty ↦ rw empty (h, e)
        | inr more ↦ elim (Bool-cases (lt c.best_reward mean)) [
          | inl up ↦
              rw (more, e, full, up)
                (IsBestOf-better c.best_reward mean c.step_count c.eval_results h up, e)
          | inr stay ↦
              rw (more, e, full, stay)
                (IsBestOf-other c.best_reward mean c.step_count c.eval_results h stay, e)
        ]
      ]

  evaluate-IsBest :
      (fuel : ℕ) (path : String) (c : EvalCallback F G) (a : Algo Obs Act) (predict : Obs → Act)
      (env : Env) {o : Outcome F G}
      → nonempty path ≡ true
      → IsBest path c
      → evaluate F G fuel c a predict env ≡ some o
      → IsBest path o.callback
  evaluate-IsBest fuel path c a predict env {o} full h e =
      go (play_episodes F G fuel c.n_eval_episodes policy env) refl
    where
      policy : Obs → Act
      policy = act F G (set_training F G false a) predict

      go :
          (r : Option (Env × List Carrier))
          → play_episodes F G fuel c.n_eval_episodes policy env ≡ r
          → IsBest path o.callback
      go none p = absurd (evaluate-none F G fuel c a predict env p e)
      go (some (env', rewards)) p =
          subst (λ (x : Outcome F G). IsBest path x.callback)
            (evaluate-some F G fuel c a predict env p e)
            (finish-IsBest path c (set_training F G true (set_training F G false a)) env' rewards
              full h)

  on_step-IsBest :
      (fuel : ℕ) (path : String) (c : EvalCallback F G) (step : Option ℕ)
      (algo : Option (Algo Obs Act)) {o : Outcome F G}
      → nonempty path ≡ true
      → IsBest path c
      → on_step F G fuel c step algo ≡ some o
      → IsBest path o.callback
  on_step-IsBest fuel path c step algo full h e = elim (on_step_inversion F G fuel c step algo e) [
    | inl same ↦ subst (IsBest path) (sym same) h
    | inr (a, predict, env, ev) ↦
        evaluate-IsBest fuel path (record c { step_count = next_step step c.step_count }) a predict
          env full h ev
  ]

  -- The callback after some calls of the hook, each of which returned.
  pub data Called (start : EvalCallback F G) : EvalCallback F G → Type 0 where
    not_yet : Called start start
    again :
        {c : EvalCallback F G} (fuel : ℕ) (step : Option ℕ) (algo : Option (Algo Obs Act))
        {o : Outcome F G}
        → Called start c
        → on_step F G fuel c step algo ≡ some o
        → Called start o.callback

  Called-IsBest :
      (path : String) {start c : EvalCallback F G}
      → nonempty path ≡ true
      → IsBest path start
      → Called start c
      → IsBest path c
  Called-IsBest path full h not_yet = h
  Called-IsBest path full h (again {c = c'} fuel step algo calls e) =
      on_step-IsBest fuel path c' step algo full (Called-IsBest path full h calls) e

  -- `EvalCallback(eval_env, eval_freq, n_eval_episodes, best_model_path)`
  abbrev pub init : Option Env → ℕ → ℕ → Option String → EvalCallback F G
  init eval_env eval_freq n_eval_episodes best_model_path = record {
    eval_env = eval_env;
    eval_freq = eval_freq;
    n_eval_episodes = n_eval_episodes;
    best_model_path = best_model_path;
    best_reward = neg_inf;
    step_count = 0;
    eval_results = [];
  }

  -- Where `<` is a strict order: a callback with a path for the best model, after any calls of
  -- its hook that returned, holds as best reward one of the recorded mean rewards (or still minus
  -- infinity), and no recorded mean reward is above it.
  pub eval_callback_best :
      (path : String) (eval_env : Option Env) (eval_freq n_eval_episodes : ℕ) {c : EvalCallback F G}
      → nonempty path ≡ true
      → Called (init eval_env eval_freq n_eval_episodes (some path)) c
      → IsBestOf c.best_reward c.eval_results
  eval_callback_best path eval_env eval_freq n_eval_episodes full calls =
      (Called-IsBest path full ((tt, inl refl), refl) calls).0
