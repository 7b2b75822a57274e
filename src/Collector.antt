-- ===== src/Collector.antt =====
-- python/rlox/off_policy_collector.py: `OffPolicyCollector`.
-- The vectorised environment, the policy, the exploration and the casts to float32 are parameters.
-- An array with one row per environment is the list of its rows; `numpy.mean` is a parameter.
pub mod Episodes
mod Tests
use rlox.Base.{
  ℕ, zero, suc, ◌+◌, ◌-◌, ◌<◌, Bool, true, false, ◌&&◌, ◌||◌, Option, none, some, List, [], ◌∷◌,
  ◌++◌, map, if◌then◌else◌, ltb, length, replicate, last_n,
}
use rlox.Base.Float.{Float}

-- What `step_all` gives for one environment.
pub record Row (F : Float) (Obs : Type 0) : Type 0 where
  pub next_obs : Obs
  pub reward : F.Carrier
  pub terminated : Bool
  pub truncated : Bool

pub record Transition (F : Float) (Obs Act : Type 0) : Type 0 where
  pub obs : Obs
  pub action : Act
  pub reward : F.Carrier
  pub terminated : Bool
  pub truncated : Bool
  pub next_obs : Obs

-- The calls of a buffer.
pub data Push (F : Float) (Obs Act : Type 0) : Type 0 where
  push : Transition F Obs Act → Push F Obs Act
  push_batch : List (Transition F Obs Act) → Push F Obs Act

-- The environments, the current observations and the exploration, if there is one.
pub record World (Env Obs Explore : Type 0) : Type 0 where
  pub env : Env
  pub obs : List Obs
  pub exploration : Option Explore

-- One step of all the environments.
pub record Turn (F : Float) (Obs Act : Type 0) : Type 0 where
  pub obs : List Obs
  pub actions : List Act
  pub rows : List (Row F Obs)

pub record OffPolicyCollector (F : Float) (Env Obs Act Explore : Type 0) : Type 0 where
  pub n_envs : ℕ
  -- whether `reset` was called, so that there are observations
  pub has_obs : Bool
  pub world : World Env Obs Explore
  pub is_continuous : Bool
  pub ep_rewards : List F.Carrier
  pub completed_rewards : List F.Carrier
  -- the calls of the buffer so far, if there is one, and whether it has `push_batch`
  pub buffer : Option (List (Push F Obs Act))
  pub has_push_batch : Bool

module _ (F : Float) (Obs : Type 0) where
  abbrev pub done : Row F Obs → Bool
  done r = r.terminated || r.truncated

  -- `_ep_rewards` after a step, and the rewards of the episodes that ended, by environments.
  unfoldable pub track : List F.Carrier → List (Row F Obs) → List F.Carrier × List F.Carrier
  track [] rows = ([], [])
  track (e ∷ es) [] = (e ∷ es, [])
  track (e ∷ es) (r ∷ rows) =
      let rest = track es rows in
      let total = F.add e r.reward in
      if done r then (F.of_ℕ 0 ∷ rest.0, total ∷ rest.1) else (total ∷ rest.0, rest.1)

module _ (F : Float) (Env Obs Act Explore : Type 0) where
  pub record Parts : Type 0 where
    pub reset_all : Env → List Obs × Env
    pub step_all : List Act → Env → List (Row F Obs) × Env
    pub select_action : Explore → List Act → ℕ → ℕ → List Act × Explore
    pub reset_exploration : Explore → Explore
    pub clip : Act → Act
    pub cast_obs : Obs → Obs
    pub cast_action : Act → Act
    pub cast_reward : F.Carrier → F.Carrier
    pub mean : List F.Carrier → F.Carrier

  module _ (P : Parts) where
    abbrev pub explored : Option Explore → List Act → ℕ → ℕ → List Act × Option Explore
    explored none actions step total = (actions, none)
    explored (some x) actions step total =
        let (chosen, x') = P.select_action x actions step total in (chosen, some x')

    -- The policy, the exploration, the clipping and the step of the environments.
    unfoldable pub interact :
        (List Obs → List Act)
        → Bool
        → World Env Obs Explore
        → ℕ
        → ℕ
        → Turn F Obs Act × World Env Obs Explore
    interact get_action is_continuous w step total =
        let (actions, x) = explored w.exploration (get_action w.obs) step total in
        let bounded = if is_continuous then map P.clip actions else actions in
        let (rows, env) = P.step_all bounded w.env in
        (
          record { obs = w.obs; actions = bounded; rows = rows },
          record { env = env; obs = map (λ (r : Row F Obs). r.next_obs) rows; exploration = x },
        )

    -- The transitions of a step. A single push keeps the reward as it is.
    abbrev pub transitions :
        (F.Carrier → F.Carrier)
        → List Obs
        → List Act
        → List (Row F Obs)
        → List (Transition F Obs Act)
    transitions cast [] actions rows = []
    transitions cast (_ ∷ _) [] rows = []
    transitions cast (_ ∷ _) (_ ∷ _) [] = []
    transitions cast (o ∷ os) (a ∷ as_) (r ∷ rs) =
        record {
          obs = P.cast_obs o;
          action = P.cast_action a;
          reward = cast r.reward;
          terminated = r.terminated;
          truncated = r.truncated;
          next_obs = P.cast_obs r.next_obs;
        }
        ∷ transitions cast os as_ rs

    -- What a step calls of the buffer.
    unfoldable pub pushes : ℕ → Bool → Turn F Obs Act → List (Push F Obs Act)
    pushes n_envs has_push_batch t =
        if ltb 1 n_envs && has_push_batch
        then push_batch (transitions P.cast_reward t.obs t.actions t.rows) ∷ []
        else map push (transitions (λ x. x) t.obs t.actions t.rows)

    unfoldable pub reset :
        OffPolicyCollector F Env Obs Act Explore → OffPolicyCollector F Env Obs Act Explore
    reset c =
        let (obs, env) = P.reset_all c.world.env in
        record c {
          has_obs = true;
          world = record {
            env = env;
            obs = obs;
            exploration = elim c.world.exploration [
              | none ↦ none
              | some x ↦ some (P.reset_exploration x)
            ];
          };
          ep_rewards = replicate c.n_envs (F.of_ℕ 0);
          completed_rewards = [];
        }

    abbrev pub nonempty : List F.Carrier → Bool
    nonempty [] = false
    nonempty (_ ∷ _) = true

    abbrev pub mean_reward : List F.Carrier → F.Carrier
    mean_reward completed = if nonempty completed then P.mean (last_n 10 completed) else F.of_ℕ 0

    -- The bookkeeping of a step.
    abbrev pub account :
        OffPolicyCollector F Env Obs Act Explore
        → Turn F Obs Act
        → World Env Obs Explore
        → OffPolicyCollector F Env Obs Act Explore
    account c t w = record c {
      world = w;
      ep_rewards = (track F Obs c.ep_rewards t.rows).0;
      completed_rewards = c.completed_rewards ++ (track F Obs c.ep_rewards t.rows).1;
      buffer = elim c.buffer [
        | none ↦ none
        | some calls ↦ some (calls ++ pushes c.n_envs c.has_push_batch t)
      ];
    }

    -- `collect_step`: the collector after it, and the mean episode reward.
    unfoldable pub collect_step :
        (List Obs → List Act)
        → OffPolicyCollector F Env Obs Act Explore
        → ℕ
        → ℕ
        → OffPolicyCollector F Env Obs Act Explore × F.Carrier
    unfolding track interact pushes reset
    collect_step get_action c step total =
        let c₀ = if c.has_obs then c else reset c in
        let (t, w) = interact get_action c₀.is_continuous c₀.world step total in
        let c₁ = account c₀ t w in (c₁, mean_reward c₁.completed_rewards)

    -- The loop of `collect_n_steps`.
    unfoldable pub collect_steps :
        (List Obs → List Act)
        → ℕ
        → OffPolicyCollector F Env Obs Act Explore
        → ℕ
        → ℕ
        → OffPolicyCollector F Env Obs Act Explore
    unfolding collect_step
    collect_steps get_action zero c step total = c
    collect_steps get_action (suc n) c step total =
        collect_steps get_action n (collect_step get_action c step total).0 (step + 1) total

    unfoldable pub collect_n_steps :
        (List Obs → List Act)
        → OffPolicyCollector F Env Obs Act Explore
        → ℕ
        → ℕ
        → ℕ
        → OffPolicyCollector F Env Obs Act Explore × F.Carrier
    unfolding collect_steps
    collect_n_steps get_action c n_steps start_step total =
        let c' = collect_steps get_action n_steps c start_step total in
        (c', mean_reward c'.completed_rewards)
