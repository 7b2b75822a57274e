-- ===== src/Callbacks/Evaluation/Episodes.antt =====
-- python/rlox/callbacks.py, class EvalCallback: the episodes that an evaluation plays.
use rlox.Base.{
  ℕ, zero, suc, ◌≤◌, ◌<◌, ◌≡◌, refl, true, false, ◌||◌, some, List, [], ◌∷◌, map, length, ap, ◌⊎◌,
  inl, inr, Bool-cases, arith,
}
use rlox.Base.Float.{Float}
use rlox.Callbacks.Evaluation.{Gym, play, play_episodes, sum_rewards}

-- The environments stop every episode after `limit` more steps at the latest, as gymnasium's
-- TimeLimit wrapper does.
pub record HasTimeLimit (F : Float) (G : Gym F) : Type 0 where
  pub limit : ℕ
  pub left : G.Env → ℕ
  pub left-reset : (env : G.Env) → left (G.reset env).0 ≤ limit
  pub left-step :
      (env : G.Env) (a : G.Act)
      → let (env', obs, r, term, trunc) = G.step env a in
        (term || trunc ≡ true) ⊎ (left env' < left env)

module _ (F : Float) (G : Gym F) (policy : G.Obs → G.Act) where
  open F use {Carrier, of_ℕ, add}
  open G use {Env, Obs, reset, step}

  -- From an environment with an observation, the policy's steps up to the first that ends the
  -- episode give these rewards and this environment.
  pub data Steps : Env → Obs → List Carrier → Env → Type 0 where
    last :
        (env : Env) (obs : Obs)
        → ((step env (policy obs)).3 || (step env (policy obs)).4) ≡ true
        → Steps env obs ((step env (policy obs)).2 ∷ []) (step env (policy obs)).0
    more :
        (env : Env) (obs : Obs) (rs : List Carrier) (end : Env)
        → ((step env (policy obs)).3 || (step env (policy obs)).4) ≡ false
        → Steps (step env (policy obs)).0 (step env (policy obs)).1 rs end
        → Steps env obs ((step env (policy obs)).2 ∷ rs) end

  -- So many episodes one after the other, each from a reset, with the rewards of each.
  pub data Runs : ℕ → Env → List (List Carrier) → Env → Type 0 where
    over : (env : Env) → Runs zero env [] env
    next :
        (n : ℕ) (env : Env) (rs : List Carrier) (between : Env) (rss : List (List Carrier))
        (end : Env)
        → Steps (reset env).0 (reset env).1 rs between
        → Runs n between rss end
        → Runs (suc n) env (rs ∷ rss) end

  abbrev pub episode_reward : List Carrier → Carrier
  episode_reward rs = sum_rewards F G (of_ℕ 0) rs

  pub Runs-length :
      (n : ℕ) (env : Env) (rss : List (List Carrier)) (end : Env)
      → Runs n env rss end
      → length (map episode_reward rss) ≡ n
  Runs-length zero env [] end (over _) = refl
  Runs-length zero env (rs ∷ rss) end runs = elim runs [ ]
  Runs-length (suc n) env [] end runs = elim runs [ ]
  Runs-length (suc n) env (rs ∷ rss) end (next _ _ _ between _ _ s runs) =
      ap suc (Runs-length n between rss end runs)

  module _ (T : HasTimeLimit F G) where
    open T use {limit, left, left-reset, left-step}

    play_total :
        (fuel : ℕ) (env : Env) (obs : Obs) (r : Carrier)
        → left env < fuel
        → (end : Env) × (rs : List Carrier) × (play F G fuel policy env obs r
            ≡ some (end, sum_rewards F G r rs))
          × Steps env obs rs end
    unfolding play
    play_total zero env obs r h = absurd (omega arith)
    play_total (suc fuel) env obs r h =
        let (env', obs', r', term, trunc) = step env (policy obs) in
        elim (Bool-cases (term || trunc)) [
          | inl done ↦ (env', r' ∷ [], rw done refl, last env obs done)
          | inr goes_on ↦ elim (left-step env (policy obs)) [
            | inl done ↦ absurd (cc)
            | inr below ↦
                let (end, rs, e, s) = play_total fuel env' obs' (add r r') (omega arith) in
                (end, r' ∷ rs, rw goes_on e, more env obs rs end goes_on s)
          ]
        ]

    pub play_episodes_total :
        (n : ℕ) (env : Env)
        → (end : Env) × (rss : List (List Carrier)) × (play_episodes F G (suc limit) n policy env
            ≡ some (end, map episode_reward rss))
          × Runs n env rss end
    unfolding play_episodes
    play_episodes_total zero env = (env, [], refl, over env)
    play_episodes_total (suc n) env =
        let (env', obs) = reset env in
        let (between, rs, e, s) =
          play_total (suc limit) env' obs (of_ℕ 0) (omega (arith, left-reset env)) in
        let (end, rss, e', runs) = play_episodes_total n between in
        (end, rs ∷ rss, rw (e, play_episodes) (rw e' refl), next n env rs between rss end s runs)
