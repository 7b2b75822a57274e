-- ===== src/Trainer/Episodes.antt =====
-- python/rlox/trainer.py, `Trainer.evaluate`: the episodes that an evaluation plays.
use rlox.Base.{
  ℕ, zero, suc, ◌+◌, ◌<◌, ◌≤◌, ◌≡◌, refl, ap, ◌∙◌, true, false, ◌||◌, Option, none, some, List, [],
  ◌∷◌, map, length, ok, raised, ◌⊎◌, inl, inr, Bool-cases, Result-cases, All, arith,
}
use rlox.Base.Float.{Float}
use rlox.Trainer.{Error}
use rlox.Trainer.Evaluation.{
  Arrays, EnvAction, Gym, Agent, Policy, observed, converted, Played, ended, failed, play,
  reset_state, Episodes, and_episode, play_episodes,
}

-- The environments stop every episode after `limit` steps at the latest, as gymnasium's
-- TimeLimit wrapper does.
pub record HasTimeLimit (F : Float) (A : Arrays) (G : Gym F A) : Type 0 where
  pub limit : ℕ
  pub left : G.Env → ℕ
  pub left-reset : (seed : ℕ) (env : G.Env) → left (G.reset seed env).0 < limit
  pub left-step :
      (env : G.Env) (a : EnvAction A)
      → let (env', obs, r, term, trunc) = G.step env a in
        (term || trunc ≡ true) ⊎ (left env' < left env)

module _ (F : Float) (A : Arrays) (G : Gym F A) (State : Type 0) (P : Policy F A G State) where
  open F use {Carrier, of_ℕ, add}
  open G use {Env, Obs, reset, step}

  -- The algorithm after one call of `predict`
  abbrev pub predicted : Agent State Obs → Obs → Agent State Obs
  predicted a obs = record a {
    state = (P.predict a.state (observed F A G State P a.vec_normalize obs)).0;
  }

  -- How an episode stops: at a step that ends it, or at an exception
  pub data Stop : Type 0 where
    at_step : Env → Stop
    at_error : Error → Stop

  -- The calls of `predict` and the steps from an environment with an observation on: up to the
  -- first step that ends the episode, or the first call of `predict` or conversion of its action
  -- that raises, with the rewards, the algorithm after it, and how it stopped.
  pub data Steps
      : Agent State Obs → Env → Obs → List Carrier → Agent State Obs → Stop → Type 0 where
    breaks :
        (a : Agent State Obs) (env : Env) (obs : Obs) (e : Error)
        → converted F A G State P
            (P.predict a.state (observed F A G State P a.vec_normalize obs)).1
            env
          ≡ raised e
        → Steps a env obs [] (predicted a obs) (at_error e)
    last :
        (a : Agent State Obs) (env : Env) (obs : Obs) (act : EnvAction A)
        → converted F A G State P
            (P.predict a.state (observed F A G State P a.vec_normalize obs)).1
            env
          ≡ ok act
        → ((step env act).3 || (step env act).4) ≡ true
        → Steps a env obs ((step env act).2 ∷ []) (predicted a obs) (at_step (step env act).0)
    more :
        (a : Agent State Obs) (env : Env) (obs : Obs) (act : EnvAction A) (rs : List Carrier)
        (a' : Agent State Obs) (stop : Stop)
        → converted F A G State P
            (P.predict a.state (observed F A G State P a.vec_normalize obs)).1
            env
          ≡ ok act
        → ((step env act).3 || (step env act).4) ≡ false
        → Steps (predicted a obs) (step env act).0 (step env act).1 rs a' stop
        → Steps a env obs ((step env act).2 ∷ rs) a' stop

  -- The episodes from number `ep` on, `n` of them unless one of them breaks, each from a reset with
  -- its own seed, with the rewards of those that ended, the algorithm after them, and the exception
  -- of the one that broke.
  pub data Runs (seed : ℕ)
      : ℕ
        → ℕ
        → Agent State Obs
        → Env
        → List (List Carrier)
        → Agent State Obs
        → Option Error
        → Type 0 where
    over : (ep : ℕ) (a : Agent State Obs) (env : Env) → Runs seed ep zero a env [] a none
    broken :
        (ep n : ℕ) (a : Agent State Obs) (env : Env) (rs : List Carrier) (a' : Agent State Obs)
        (e : Error)
        → Steps
            (reset_state F A G State P a)
            (reset (seed + ep) env).0
            (reset (seed + ep) env).1
            rs
            a'
            (at_error e)
        → Runs seed ep (suc n) a env [] a' (some e)
    next :
        (ep n : ℕ) (a : Agent State Obs) (env : Env) (rs : List Carrier) (a' : Agent State Obs)
        (between : Env) (rss : List (List Carrier)) (a'' : Agent State Obs) (e : Option Error)
        → Steps
            (reset_state F A G State P a)
            (reset (seed + ep) env).0
            (reset (seed + ep) env).1
            rs
            a'
            (at_step between)
        → Runs seed (ep + 1) n a' between rss a'' e
        → Runs seed ep (suc n) a env (rs ∷ rss) a'' e

  -- The sum from the left
  abbrev pub sum_rewards : Carrier → List Carrier → Carrier
  sum_rewards acc [] = acc
  sum_rewards acc (r ∷ rs) = sum_rewards (add acc r) rs

  abbrev pub episode_reward : List Carrier → Carrier
  episode_reward rs = sum_rewards (of_ℕ 0) rs

  -- What the loop makes of the episodes.
  abbrev pub collected : List (List Carrier) → Option Error → Episodes F A G State P
  collected rss (some e) = raised e
  collected rss none = ok (map episode_reward rss, map length rss)

  and_episode-collected :
      (rs : List Carrier) (rss : List (List Carrier)) (e : Option Error)
      → and_episode F A G State P (episode_reward rs) (length rs) (collected rss e)
        ≡ collected (rs ∷ rss) e
  and_episode-collected rs rss none = refl
  and_episode-collected rs rss (some e) = refl

  -- What the loop of an episode gives.
  abbrev pub played : Carrier → ℕ → List Carrier → Stop → Played F A G State P
  played r len rs (at_step env) = ended env (sum_rewards r rs) (len + length rs)
  played r len rs (at_error e) = failed e

  -- One reward more
  played-cons :
      (r r' : Carrier) (len : ℕ) (rs : List Carrier) (stop : Stop)
      → played (add r r') (len + 1) rs stop ≡ played r len (r' ∷ rs) stop
  played-cons r r' len rs (at_step env) =
      ap (λ n. ended env (sum_rewards (add r r') rs) n) (omega arith)
  played-cons r r' len rs (at_error e) = refl

  module _ (T : HasTimeLimit F A G) where
    open T use {limit, left, left-reset, left-step}

    play_total :
        (fuel : ℕ) (a : Agent State Obs) (env : Env) (obs : Obs) (r : Carrier) (len : ℕ)
        → left env < fuel
        → (a' : Agent State Obs) × (rs : List Carrier) × (stop : Stop) × (play F A G State P fuel a
              env obs r len
            ≡ some (a', played r len rs stop))
          × Steps a env obs rs a' stop
          × (length rs ≤ fuel)
          × (a'.vec_normalize ≡ a.vec_normalize)
    unfolding play
    play_total zero a env obs r len h = absurd (omega arith)
    play_total (suc fuel) a env obs r len h =
        let arr = (P.predict a.state (observed F A G State P a.vec_normalize obs)).1 in
        let a₁ = predicted a obs in
        elim (Result-cases (converted F A G State P arr env)) [
          | inl (e, fails) ↦ (
            a₁,
            [],
            at_error e,
            rw (fails, play) refl,
            breaks a env obs e fails,
            omega arith,
            refl,
          )
          | inr (act, acts) ↦
              let (env', obs', r', term, trunc) = step env act in
              elim (Bool-cases (term || trunc)) [
                | inl done ↦ (
                  a₁,
                  r' ∷ [],
                  at_step env',
                  rw (acts, play) (rw done refl),
                  last a env obs act acts done,
                  omega arith,
                  refl,
                )
                | inr goes_on ↦ elim (left-step env act) [
                  | inl done ↦ absurd (cc)
                  | inr below ↦
                      let (a', rs, stop, e, s, few, keeps) =
                        play_total fuel a₁ env' obs' (add r r') (len + 1) (omega arith) in
                      (
                        a',
                        r' ∷ rs,
                        stop,
                        rw (acts, play)
                            (rw goes_on
                              (e ∙ ap (λ p. some (a', p)) (played-cons r r' len rs stop))),
                        more a env obs act rs a' stop acts goes_on s,
                        omega (arith, few),
                        keeps,
                      )
                ]
              ]
        ]

    -- Some episodes return, and change nothing of the normaliser.
    abbrev pub Plays : ℕ → ℕ → ℕ → Agent State Obs → Env → Type 0
    Plays seed ep n a env =
        (a' : Agent State Obs) × (rss : List (List Carrier)) × (e : Option Error) × (play_episodes F
            A G State P limit seed ep n a env
          ≡ some (a', collected rss e))
        × Runs seed ep n a env rss a' e
        × All (λ rs. length rs ≤ limit) rss
        × (a'.vec_normalize ≡ a.vec_normalize)

    Plays-after :
        (seed ep n : ℕ) (a a₁ : Agent State Obs) (env : Env) (rs : List Carrier) (stop : Stop)
        → play F A G State P limit
            (reset_state F A G State P a)
            (reset (seed + ep) env).0
            (reset (seed + ep) env).1
            (of_ℕ 0)
            0
          ≡ some (a₁, played (of_ℕ 0) 0 rs stop)
        → Steps
            (reset_state F A G State P a)
            (reset (seed + ep) env).0
            (reset (seed + ep) env).1
            rs
            a₁
            stop
        → length rs ≤ limit
        → a₁.vec_normalize ≡ a.vec_normalize
        → ((env₂ : Env) → Plays seed (ep + 1) n a₁ env₂)
        → Plays seed ep (suc n) a env
    unfolding play_episodes
    Plays-after seed ep n a a₁ env rs (at_error err) e s few keeps others =
        (a₁, [], some err, rw (e, play_episodes) refl, broken ep n a env rs a₁ err s, tt, keeps)
    Plays-after seed ep n a a₁ env rs (at_step env₂) e s few keeps others =
        let (a₂, rss, err, e₂, runs, fews, keeps₂) = others env₂ in
        let len : 0 + length rs ≡ length rs = omega arith in
        (
          a₂,
          rs ∷ rss,
          err,
          rw (e, play_episodes)
              (rw (e₂, len) (ap (λ es. some (a₂, es)) (and_episode-collected rs rss err))),
          next ep n a env rs a₁ env₂ rss a₂ err s runs,
          (few, fews),
          keeps₂ ∙ keeps,
        )

    pub play_episodes_total :
        (seed ep n : ℕ) (a : Agent State Obs) (env : Env) → Plays seed ep n a env
    unfolding play_episodes
    play_episodes_total seed ep zero a env = (a, [], none, refl, over ep a env, tt, refl)
    play_episodes_total seed ep (suc n) a env =
        let (env₁, obs) = reset (seed + ep) env in
        let (a₁, rs, stop, e, s, few, keeps) =
          play_total limit (reset_state F A G State P a) env₁ obs (of_ℕ 0) 0
            (left-reset (seed + ep) env) in
        Plays-after seed ep n a a₁ env rs stop e s few keeps
          (λ env₂. play_episodes_total seed (ep + 1) n a₁ env₂)
