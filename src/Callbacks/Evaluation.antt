-- ===== src/Callbacks/Evaluation.antt =====
-- python/rlox/callbacks.py, class EvalCallback. Gymnasium's environments and the algorithm are
-- parameters. Printing is left out. The loop of an episode takes fuel; `none` is a call that
-- has not returned yet.
pub mod Episodes
pub mod Termination
pub mod Best
use rlox.Base.{
  ℕ, zero, suc, ◌+◌, ◌%◌, Bool, true, false, not, ◌&&◌, ◌||◌, Option, none, some, List, [], ◌∷◌,
  ◌++◌, length, if◌then◌else◌, ◌==◌, String, Result, ok, raised,
}
use rlox.Base.Float.{Float}
use rlox.Callbacks.Kwargs.{Error, zero_division, next_step}

-- The environments of gymnasium, as the code calls them.
pub record Gym (F : Float) : Type 1 where
  pub Env : Type 0
  pub Obs : Type 0
  pub Act : Type 0
  pub make : String → Env
  pub reset : Env → Env × Obs
  -- the environment, observation, reward, terminated and truncated
  pub step : Env → Act → Env × Obs × F.Carrier × Bool × Bool

-- `algo.vec_normalize`; `normalize_obs` is absent if the object lacks the method.
pub record VecNormalize (Obs : Type 0) : Type 0 where
  pub training : Bool
  pub normalize_obs : Option (Obs → Obs)

-- The attributes of the algorithm that the callback looks at.
pub record Algo (Obs Act : Type 0) : Type 0 where
  pub predict : Option (Obs → Act)
  pub can_save : Bool
  pub env_id : Option String
  pub vec_normalize : Option (VecNormalize Obs)

-- Python's truth value of a text
abbrev nonempty : String → Bool
nonempty String.[] = false
nonempty (String.◌∷◌ c s) = true

module _ (F : Float) (G : Gym F) where
  open F use {Carrier, neg_inf, of_ℕ, add, div, lt}
  open G use {Env, Obs, Act, make, reset, step}

  pub record EvalCallback : Type 0 where
    pub eval_env : Option Env
    pub eval_freq : ℕ
    pub n_eval_episodes : ℕ
    pub best_model_path : Option String
    pub best_reward : Carrier
    pub step_count : ℕ
    pub eval_results : List (ℕ × Carrier)

  -- What a call of the hook leaves; `saved` are the paths given to `algo.save`.
  pub record Outcome : Type 0 where
    pub result : Result Error Bool
    pub callback : EvalCallback
    pub algo : Option (Algo Obs Act)
    pub saved : List String

  -- `vec_normalize.training = flag`, if there is one
  abbrev pub set_training : Bool → Algo Obs Act → Algo Obs Act
  set_training flag algo = record algo {
    vec_normalize = elim algo.vec_normalize [
      | none ↦ none
      | some v ↦ some (record v { training = flag })
    ];
  }

  -- The action for an observation, normalised where the algorithm can.
  abbrev pub act : Algo Obs Act → (Obs → Act) → Obs → Act
  act algo predict obs = elim algo.vec_normalize [
    | none ↦ predict obs
    | some v ↦ elim v.normalize_obs [ none ↦ predict obs | some f ↦ predict (f obs) ]
  ]

  -- `while not done: …`, entered with `done` false
  unfoldable pub play : ℕ → (Obs → Act) → Env → Obs → Carrier → Option (Env × Carrier)
  play zero policy env obs ep_reward = none
  play (suc fuel) policy env obs ep_reward =
      let (env', obs', r, term, trunc) = step env (policy obs) in
      let rest = play fuel policy env' obs' (add ep_reward r) in
      if term || trunc then some (env', add ep_reward r) else rest

  -- The `for` loop over the episodes, with the rewards in order.
  unfoldable pub play_episodes : ℕ → ℕ → (Obs → Act) → Env → Option (Env × List Carrier)
  unfolding play
  play_episodes fuel zero policy env = some (env, [])
  play_episodes fuel (suc n) policy env =
      let (env', obs) = reset env in
      elim (play fuel policy env' obs (of_ℕ 0)) [
        | none ↦ none
        | some (env'', r) ↦ elim (play_episodes fuel n policy env'') [
          | none ↦ none
          | some (env₃, rs) ↦ some (env₃, r ∷ rs)
        ]
      ]

  -- `sum(rewards)`, from the left
  abbrev pub sum_rewards : Carrier → List Carrier → Carrier
  sum_rewards acc [] = acc
  sum_rewards acc (r ∷ rs) = sum_rewards (add acc r) rs

  abbrev pub mean_reward : List Carrier → Carrier
  mean_reward rs = div (sum_rewards (of_ℕ 0) rs) (of_ℕ (length rs))

  -- `self.eval_env is None` keeps its value: an environment made for the call is closed.
  abbrev pub keep_env : Option Env → Env → Option Env
  keep_env none env = none
  keep_env (some _) env = some env

  -- What follows the episodes: the mean, the results and the best model.
  unfoldable pub finish : EvalCallback → Algo Obs Act → Env → List Carrier → Outcome
  finish c algo env rewards =
      let c₀ = record c { eval_env = keep_env c.eval_env env } in
      if length rewards == 0
      then record { result = raised zero_division; callback = c₀; algo = some algo; saved = [] }
      else let mean = mean_reward rewards in
        let c₁ = record c₀ { eval_results = c.eval_results ++ (c.step_count, mean) ∷ [] } in
        elim c.best_model_path [
          | none ↦ record { result = ok true; callback = c₁; algo = some algo; saved = [] }
          | some path ↦
              if nonempty path && lt c.best_reward mean
              then record {
                result = ok true;
                callback = record c₁ { best_reward = mean };
                algo = some algo;
                saved = if algo.can_save then path ∷ [] else [];
              }
              else record { result = ok true; callback = c₁; algo = some algo; saved = [] }
        ]

  -- An evaluation, once it is known that one is due and in which environment.
  unfoldable pub evaluate : ℕ → EvalCallback → Algo Obs Act → (Obs → Act) → Env → Option Outcome
  unfolding play_episodes finish
  evaluate fuel c algo predict env =
      let frozen = set_training false algo in
      elim (play_episodes fuel c.n_eval_episodes (act frozen predict) env) [
        | none ↦ none
        | some (env', rewards) ↦ some (finish c (set_training true frozen) env' rewards)
      ]

  -- `eval_env`, or a new one made from the algorithm's `env_id`
  abbrev pub choose_env : Option Env → Option String → Option Env
  choose_env (some env) env_id = some env
  choose_env none none = none
  choose_env none (some env_id) = some (make env_id)

  unfoldable pub on_step : ℕ → EvalCallback → Option ℕ → Option (Algo Obs Act) → Option Outcome
  unfolding evaluate
  on_step fuel c step algo =
      let c' = record c { step_count = next_step step c.step_count } in
      let skip : Option Outcome =
        some (record { result = ok true; callback = c'; algo = algo; saved = [] }) in
      if c.eval_freq == 0
      then some (record { result = raised zero_division; callback = c'; algo = algo; saved = [] })
      else if not (c'.step_count % c'.eval_freq == 0)
      then skip
      else elim algo [
        | none ↦ skip
        | some a ↦ elim a.predict [
          | none ↦ skip
          | some predict ↦ elim (choose_env c.eval_env a.env_id) [
            | none ↦ skip
            | some env ↦ evaluate fuel c' a predict env
          ]
        ]
      ]
