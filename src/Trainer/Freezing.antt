-- ===== src/Trainer/Freezing.antt =====
-- python/rlox/trainer.py, `Trainer.evaluate`: what it gives, and what becomes of the normaliser.
use rlox.Base.{
  ℕ, zero, suc, ◌+◌, ◌≤◌, ◌≡◌, refl, sym, ap, ◌∙◌, Bool, true, false, Option, none, some, List, [],
  ◌∷◌, map, length, String, Result, ok, raised, All,
}
use rlox.Base.Float.{Float}
use rlox.Trainer.{Error, other_error}
use rlox.Trainer.Evaluation.{
  Arrays, Gym, VecNormalize, Agent, Policy, Stats, with_flag, set_training, report, evaluate,
}
use rlox.Trainer.Episodes.{HasTimeLimit, Runs, episode_reward, collected, play_episodes_total}

module _ (F : Float) (A : Arrays) (G : Gym F A) (State : Type 0) (P : Policy F A G State) where
  open F use {Carrier}
  open G use {Env, Obs, make}

  Runs-length :
      (seed ep n : ℕ) (a a' : Agent State Obs) (env : Env) (rss : List (List Carrier))
      → Runs F A G State P seed ep n a env rss a' none
      → length rss ≡ n
  Runs-length seed ep zero a a' env [] runs = refl
  Runs-length seed ep zero a a' env (rs ∷ rss) runs = elim runs [ ]
  Runs-length seed ep (suc n) a a' env [] runs = elim runs [ ]
  Runs-length seed ep (suc n) a a' env (rs ∷ rss) (Runs.next _ _ _ _ _ a₁ between _ _ _ s runs) =
      ap suc (Runs-length seed (ep + 1) n a₁ a' between rss runs)

  with_flag-with_flag :
      (v : Option (VecNormalize Obs))
      → with_flag F A G State true (with_flag F A G State false v) ≡ with_flag F A G State true v
  with_flag-with_flag none = refl
  with_flag-with_flag (some v) = refl

  -- The algorithm's normaliser, with this flag if there is one
  abbrev pub HasFlag : Bool → Agent State Obs → Agent State Obs → Type 0
  HasFlag flag a a' = a'.vec_normalize ≡ (set_training F A G State flag a).vec_normalize

  set_again :
      (a a' : Agent State Obs)
      → HasFlag false a a'
      → HasFlag true a (set_training F A G State true a')
  set_again a a' h = ap (with_flag F A G State true) h ∙ with_flag-with_flag a.vec_normalize

  module _ (limit : ℕ) (S : Stats F A G State) (n seed : ℕ) (start : Env)
      (a : Agent State Obs) where
    -- How an evaluation of `n` episodes in the environment `start` ends: the result, and the
    -- algorithm after it.
    pub data Ends : Agent State Obs → Result Error S.Summary → Type 0 where
      -- An episode broke.
      interrupted :
          (a' : Agent State Obs) (rss : List (List Carrier)) (e : Error)
          → Runs F A G State P seed 0 n (set_training F A G State false a) start rss a' (some e)
          → HasFlag false a a'
          → Ends a' (raised e)
      -- The statistics of no reward raise.
      no_episode : (a' : Agent State Obs) → n ≡ 0 → HasFlag true a a' → Ends a' (raised other_error)
      returned :
          (a' : Agent State Obs) (rs : List Carrier) (rss : List (List Carrier))
          → Runs F A G State P seed 0 n (set_training F A G State false a) start (rs ∷ rss) a' none
          → All (λ rs. length rs ≤ limit) (rs ∷ rss)
          → length (rs ∷ rss) ≡ n
          → HasFlag true a (set_training F A G State true a')
          → Ends (set_training F A G State true a') (
              ok (
                S.summary
                  (episode_reward F A G State P rs)
                  (map (episode_reward F A G State P) rss)
                  (map length (rs ∷ rss))
                  n))

    report-Ends :
        (a' : Agent State Obs) (rss : List (List Carrier)) (e : Option Error)
        → Runs F A G State P seed 0 n (set_training F A G State false a) start rss a' e
        → All (λ rs. length rs ≤ limit) rss
        → HasFlag false a a'
        → let (a'', res) = report F A G State P S n (a', collected F A G State P rss e) in
          Ends a'' res
    report-Ends a' rss (some e) runs few keeps = interrupted a' rss e runs keeps
    report-Ends a' [] none runs few keeps =
        no_episode (set_training F A G State true a')
          (sym (Runs-length seed 0 n (set_training F A G State false a) a' start [] runs))
          (set_again a a' keeps)
    report-Ends a' (rs ∷ rss) none runs few keeps =
        returned a' rs rss runs few
          (Runs-length seed 0 n (set_training F A G State false a) a' start (rs ∷ rss) runs)
          (set_again a a' keeps)

  -- If every episode of the environments ends within a limit, an evaluation of `n` episodes
  -- comes to an end. The episodes are played one after the other by the algorithm with its
  -- normaliser frozen, each from a reset with the seed plus its number and up to the first step
  -- that ends it. If all `n` end, none is longer than the limit, and the statistics of their
  -- total rewards and of their lengths are returned, or, for no episode, an exception is raised;
  -- then the normaliser's training flag is set. If `predict` or the conversion of its action raises
  -- in one of them, this exception goes on and the flag is left cleared. Nothing else of the
  -- normaliser is changed.
  pub evaluate-Ends :
      (T : HasTimeLimit F A G) (S : Stats F A G State) (env : String) (n seed : ℕ) (render : Bool)
      (a : Agent State Obs)
      → (a' : Agent State Obs) × (res : Result Error S.Summary) × (evaluate F A G State P S T.limit
            env n seed render a
          ≡ some (a', res))
        × Ends T.limit S n seed (make env render) a a' res
  unfolding evaluate
  evaluate-Ends T S env n seed render a =
      let (a', rss, err, e, runs, few, keeps) =
        play_episodes_total F A G State P T seed 0 n (set_training F A G State false a)
          (make env render) in
      let (a'', res) = report F A G State P S n (a', collected F A G State P rss err) in
      (
        a'',
        res,
        rw (e, evaluate) refl,
        report-Ends T.limit S n seed (make env render) a a' rss err runs few keeps,
      )
