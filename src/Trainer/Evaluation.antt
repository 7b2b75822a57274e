-- ===== src/Trainer/Evaluation.antt =====
-- python/rlox/trainer.py, `Trainer.evaluate` and `_to_env_action`. The environments of gymnasium,
-- numpy's arrays and statistics and the algorithm's `predict` are parameters; `predict` may change
-- the algorithm and raise. `env.close()` is left out. The loop of an episode takes fuel; `none` is
-- a call that has not returned yet.
use rlox.Base.{
  ℕ, zero, suc, ◌+◌, Bool, true, false, ◌||◌, Option, none, some, List, [], ◌∷◌, if◌then◌else◌,
  String, Result, ok, raised,
}
use rlox.Base.Float.{Float}
use rlox.Trainer.{Error, other_error}

-- numpy's arrays of actions, and what an environment wants of one
pub record Arrays : Type 1 where
  pub Arr : Type 0
  pub Shape : Type 0
  pub Dtype : Type 0
  pub Int : Type 0
  -- `int(arr.reshape(-1)[0])`
  pub first_int : Arr → Result Error Int
  pub reshape : Shape → Arr → Result Error Arr
  pub astype : Dtype → Arr → Result Error Arr

module _ (A : Arrays) where
  open A use {Arr, Shape, Dtype, Int, first_int, reshape, astype}

  -- The attributes that `_to_env_action` looks at.
  pub record ActionSpace : Type 0 where
    pub has_n : Bool
    pub shape : Option Shape
    pub dtype : Option Dtype

  pub data EnvAction : Type 0 where
    integer : Int → EnvAction
    array : Arr → EnvAction

  abbrev pub as_array : Result Error Arr → Result Error EnvAction
  as_array (raised e) = raised e
  as_array (ok a) = ok (array a)

  -- `_to_env_action`, from the array of the action
  unfoldable pub to_env_action : Arr → ActionSpace → Result Error EnvAction
  to_env_action arr space =
      if space.has_n
      then elim (first_int arr) [ raised e ↦ raised e | ok i ↦ ok (integer i) ]
      else elim space.shape [
        | none ↦ ok (array arr)
        | some s ↦ elim (reshape s arr) [
          | raised e ↦ raised e
          | ok a ↦ elim space.dtype [ none ↦ ok (array a) | some d ↦ as_array (astype d a) ]
        ]
      ]

pub record Gym (F : Float) (A : Arrays) : Type 1 where
  pub Env : Type 0
  pub Obs : Type 0
  -- with `render_mode="human"` or none
  pub make : String → Bool → Env
  pub action_space : Env → ActionSpace A
  -- with the seed
  pub reset : ℕ → Env → Env × Obs
  -- the environment, observation, reward, terminated and truncated
  pub step : Env → EnvAction A → Env × Obs × F.Carrier × Bool × Bool

-- `algo.vec_normalize`; `normalize_obs` is absent if the object lacks the method.
pub record VecNormalize (Obs : Type 0) : Type 0 where
  pub training : Bool
  pub normalize_obs : Option (Obs → Obs)

-- The algorithm: what `predict` reads and writes, and its normaliser
pub record Agent (State Obs : Type 0) : Type 0 where
  pub state : State
  pub vec_normalize : Option (VecNormalize Obs)

module _ (F : Float) (A : Arrays) (G : Gym F A) (State : Type 0) where
  open F use {Carrier, of_ℕ, add}
  open A use {Arr}
  open G use {Env, Obs, make, action_space, reset, step}

  pub record Policy : Type 0 where
    -- `predict(obs, deterministic=True)`, with the state that it leaves
    pub predict : State → Obs → State × Result Error Arr
    -- absent if the algorithm has no such method
    pub reset_predict_state : Option (State → State)

  -- numpy's statistics of the rewards and lengths; `np.min` of no rewards raises.
  pub record Stats : Type 1 where
    pub Summary : Type 0
    -- of the first reward, the other rewards, the lengths and the number of episodes
    pub summary : Carrier → List Carrier → List ℕ → ℕ → Summary

  abbrev pub with_flag : Bool → Option (VecNormalize Obs) → Option (VecNormalize Obs)
  with_flag flag none = none
  with_flag flag (some v) = some (record v { training = flag })

  -- `vec_normalize.training = flag`, if there is one
  abbrev pub set_training : Bool → Agent State Obs → Agent State Obs
  set_training flag a = record a { vec_normalize = with_flag flag a.vec_normalize }

  module _ (P : Policy) where
    abbrev pub observed : Option (VecNormalize Obs) → Obs → Obs
    observed none obs = obs
    observed (some v) obs = elim v.normalize_obs [ none ↦ obs | some f ↦ f obs ]

    unfoldable pub converted : Result Error Arr → Env → Result Error (EnvAction A)
    unfolding to_env_action
    converted (raised e) env = raised e
    converted (ok arr) env = to_env_action A arr (action_space env)

    -- How an episode ends: with its reward and length, or with an exception
    pub data Played : Type 0 where
      ended : Env → Carrier → ℕ → Played
      failed : Error → Played

    -- `while not done: …`, entered with `done` false
    unfoldable pub play :
        ℕ → Agent State Obs → Env → Obs → Carrier → ℕ → Option (Agent State Obs × Played)
    unfolding converted
    play zero a env obs ep_reward ep_len = none
    play (suc fuel) a env obs ep_reward ep_len =
        let (s, arr) = P.predict a.state (observed a.vec_normalize obs) in
        let a' : Agent State Obs = record a { state = s } in
        elim (converted arr env) [
          | raised e ↦ some (a', failed e)
          | ok act ↦
              let (env', obs', r, term, trunc) = step env act in
              let rest = play fuel a' env' obs' (add ep_reward r) (ep_len + 1) in
              if term || trunc then some (a', ended env' (add ep_reward r) (ep_len + 1)) else rest
        ]

    -- `self.algo.reset_predict_state()`, if there is one
    abbrev pub reset_state : Agent State Obs → Agent State Obs
    reset_state a = record a {
      state = elim P.reset_predict_state [ none ↦ a.state | some f ↦ f a.state ];
    }

    abbrev pub Episodes : Type 0
    Episodes = Result Error (List Carrier × List ℕ)

    abbrev pub and_episode : Carrier → ℕ → Episodes → Episodes
    and_episode r l (raised e) = raised e
    and_episode r l (ok (rs, ls)) = ok (r ∷ rs, l ∷ ls)

    -- The `for` loop from episode `ep` on, with `n` episodes left
    unfoldable pub play_episodes :
        ℕ → ℕ → ℕ → ℕ → Agent State Obs → Env → Option (Agent State Obs × Episodes)
    unfolding play
    play_episodes fuel seed ep zero a env = some (a, ok ([], []))
    play_episodes fuel seed ep (suc n) a env =
        let (env₁, obs) = reset (seed + ep) env in
        elim (play fuel (reset_state a) env₁ obs (of_ℕ 0) 0) [
          | none ↦ none
          | some (a', failed e) ↦ some (a', raised e)
          | some (a', ended env₂ r l) ↦ elim (play_episodes fuel seed (ep + 1) n a' env₂) [
            | none ↦ none
            | some (a'', es) ↦ some (a'', and_episode r l es)
          ]
        ]

    -- The statistics, which need an episode
    abbrev pub statistics : (S : Stats) → List Carrier → List ℕ → ℕ → Result Error S.Summary
    statistics S [] ls n = raised other_error
    statistics S (r ∷ rs) ls n = ok (S.summary r rs ls n)

    -- What follows the episodes; an exception leaves the flag as it is.
    abbrev pub report :
        (S : Stats) → ℕ → Agent State Obs × Episodes → Agent State Obs × Result Error S.Summary
    report S n (a, raised e) = (a, raised e)
    report S n (a, ok (rs, ls)) = (set_training true a, statistics S rs ls n)

    unfoldable pub evaluate :
        (S : Stats)
        → ℕ
        → String
        → ℕ
        → ℕ
        → Bool
        → Agent State Obs
        → Option (Agent State Obs × Result Error S.Summary)
    unfolding play_episodes
    evaluate S fuel env n_episodes seed render a =
        elim (play_episodes fuel seed 0 n_episodes (set_training false a) (make env render)) [
          | none ↦ none
          | some out ↦ some (report S n_episodes out)
        ]
