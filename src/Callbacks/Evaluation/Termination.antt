-- ===== src/Callbacks/Evaluation/Termination.antt =====
-- python/rlox/callbacks.py, class EvalCallback: the hook returns if the episodes end.
use rlox.Base.{ℕ, ◌%◌, ◌≡◌, true, false, Option, none, some, List, [], ◌∷◌, map, ◌++◌, ok, ◌≢◌, ◌⊎◌}
use rlox.Base.Float.{Float}
use rlox.Callbacks.Kwargs.{next_step}
use rlox.Callbacks.Evaluation.Episodes.{HasTimeLimit, Runs, episode_reward}
use rlox.Callbacks.Evaluation.{
  Gym, Algo, EvalCallback, Outcome, set_training, mean_reward, choose_env, act, keep_env,
}

module _ (F : Float) (G : Gym F) where
  open F use {Carrier}
  open G use {Env, Obs, Act}

  -- `o` is an evaluation of `c`: the asked number of episodes of the frozen algorithm `a` from the
  -- environment `env`, the mean of whose total rewards is recorded.
  pub record Evaluates (c : EvalCallback F G) (a : Algo Obs Act) (predict : Obs → Act) (env : Env)
      (o : Outcome F G) : Type 0 where
    pub rewards : List (List Carrier)
    pub end : Env
    pub episodes :
        Runs F G (act F G (set_training F G false a) predict) c.n_eval_episodes env rewards end
    pub result : o.result ≡ ok true
    pub recorded :
        o.callback.eval_results
        ≡ c.eval_results
          ++ (
            c.step_count,
            mean_reward F G
                (map (episode_reward F G (act F G (set_training F G false a) predict)) rewards),
          )
            ∷ []
    pub kept : o.callback.eval_env ≡ keep_env F G c.eval_env end
    pub restored : o.algo ≡ some (set_training F G true a)

  -- Why no evaluation is due, or none is possible.
  pub data Skips (c : EvalCallback F G) (algo : Option (Algo Obs Act)) : Type 0 where
    not_due : c.step_count % c.eval_freq ≢ 0 → Skips c algo
    no_algo : algo ≡ none → Skips c algo
    no_predict : (a : Algo Obs Act) → algo ≡ some a → a.predict ≡ none → Skips c algo
    no_env : (a : Algo Obs Act) → algo ≡ some a → c.eval_env ≡ none → a.env_id ≡ none → Skips c algo

  abbrev pub counted : EvalCallback F G → Option ℕ → EvalCallback F G
  counted c step = record c { step_count = next_step step c.step_count }

  -- How a call of the hook ends.
  abbrev pub Ends : EvalCallback F G → Option (Algo Obs Act) → Outcome F G → Type 0
  Ends c algo o =
      Skips c algo × (o ≡ record { result = ok true; callback = c; algo = algo; saved = [] })
      ⊎ (a : Algo Obs Act) × (predict : Obs → Act) × (env : Env) × (algo ≡ some a)
        × (a.predict ≡ some predict)
        × (choose_env F G c.eval_env a.env_id ≡ some env)
        × (c.step_count % c.eval_freq ≡ 0)
        × Evaluates c a predict env o

module _ (F : Float) (G : Gym F) (T : HasTimeLimit F G) where
  open G use {Env, Obs, Act}
  open T use {limit}

  abbrev skipped : EvalCallback F G → Option (Algo Obs Act) → Outcome F G
  skipped c algo = record { result = ok true; callback = c; algo = algo; saved = [] }
