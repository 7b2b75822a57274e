-- ===== src/Collector/Episodes.antt =====
-- python/rlox/off_policy_collector.py: what a collection of several steps has counted and stored.
use rlox.Base.{
  ℕ, zero, suc, ◌+◌, ◌≡◌, refl, ap, ◌∙◌, Bool, true, false, Option, none, some, List, [], ◌∷◌, ◌++◌,
  map, append-nil, append_assoc, if◌then◌else◌, replicate,
}
use rlox.Base.Float.{Float}
use rlox.Collector.{
  Row, Push, World, Turn, OffPolicyCollector, Parts, done, track, interact, pushes, reset,
  mean_reward, collect_step, collect_steps, collect_n_steps,
}

module _ (F : Float) (Env Obs Act Explore : Type 0) where
  abbrev History : Type 0
  History = List (Row F Obs)

  -- The rows of an environment behind the last one that ended an episode; the latest row comes first.
  abbrev pub since_done : History → History
  since_done [] = []
  since_done (r ∷ h) = if done F Obs r then [] else r ∷ since_done h

  abbrev pub total : History → F.Carrier
  total [] = F.of_ℕ 0
  total (r ∷ h) = F.add (total h) r.reward

  -- The rewards of the episode that is running.
  abbrev pub return_of : History → F.Carrier
  return_of h = total (since_done h)

  -- Another row for each environment
  abbrev pub push_rows : List History → List (Row F Obs) → List History
  push_rows [] rows = []
  push_rows (h ∷ hs) [] = h ∷ hs
  push_rows (h ∷ hs) (r ∷ rows) = (r ∷ h) ∷ push_rows hs rows

  -- The rewards of the episodes that some rows end.
  abbrev pub finished : List History → List (Row F Obs) → List F.Carrier
  finished [] rows = []
  finished (h ∷ hs) [] = []
  finished (h ∷ hs) (r ∷ rows) =
      if done F Obs r then F.add (return_of h) r.reward ∷ finished hs rows else finished hs rows

  -- The histories after several steps, and the rewards of the episodes that ended in them.
  abbrev pub histories : List History → List (Turn F Obs Act) → List History
  histories hs [] = hs
  histories hs (t ∷ ts) = histories (push_rows hs t.rows) ts

  abbrev pub ended : List History → List (Turn F Obs Act) → List F.Carrier
  ended hs [] = []
  ended hs (t ∷ ts) = finished hs t.rows ++ ended (push_rows hs t.rows) ts

  track-finished :
      (hs : List History) (rows : List (Row F Obs))
      → track F Obs (map return_of hs) rows ≡ (map return_of (push_rows hs rows), finished hs rows)
  unfolding track
  track-finished [] rows = refl
  track-finished (h ∷ hs) [] = refl
  track-finished (h ∷ hs) (r ∷ rows) =
      rw (track, track-finished hs rows)
        (either (done F Obs r) (map return_of (push_rows hs rows)) (finished hs rows))
    where
      grown : F.Carrier
      grown = F.add (return_of h) r.reward

      either :
          (b : Bool) (rewards completed : List F.Carrier)
          → ◌≡◌ {A = List F.Carrier × List F.Carrier}
              (if b then (F.of_ℕ 0 ∷ rewards, grown ∷ completed) else (grown ∷ rewards, completed))
              (
                total (if b then [] else r ∷ since_done h) ∷ rewards,
                if b then grown ∷ completed else completed,
              )
      either true rewards completed = refl
      either false rewards completed = refl

  module _ (P : Parts F Env Obs Act Explore) (get_action : List Obs → List Act) where
    -- The steps of the environments by themselves.
    abbrev pub turns : Bool → World Env Obs Explore → ℕ → ℕ → ℕ → List (Turn F Obs Act)
    turns is_continuous w zero step total_steps = []
    turns is_continuous w (suc n) step total_steps =
        let (t, w') =
          interact F Env Obs Act Explore P get_action is_continuous w step total_steps in
        t ∷ turns is_continuous w' n (step + 1) total_steps

    abbrev pub all_pushes : ℕ → Bool → List (Turn F Obs Act) → List (Push F Obs Act)
    all_pushes n_envs has_push_batch [] = []
    all_pushes n_envs has_push_batch (t ∷ ts) =
        pushes F Env Obs Act Explore P n_envs has_push_batch t
        ++ all_pushes n_envs has_push_batch ts

    -- The world after several steps
    abbrev pub world_after : Bool → World Env Obs Explore → ℕ → ℕ → ℕ → World Env Obs Explore
    world_after is_continuous w zero step total_steps = w
    world_after is_continuous w (suc n) step total_steps =
        world_after is_continuous
          (interact F Env Obs Act Explore P get_action is_continuous w step total_steps).1 n
          (step + 1) total_steps

    -- A collector that has observations, by its parts.
    made :
        ℕ
        → World Env Obs Explore
        → Bool
        → List History
        → List F.Carrier
        → List (Push F Obs Act)
        → Bool
        → OffPolicyCollector F Env Obs Act Explore
    made n_envs w is_continuous hs completed calls batch = record {
      n_envs = n_envs;
      has_obs = true;
      world = w;
      is_continuous = is_continuous;
      ep_rewards = map return_of hs;
      completed_rewards = completed;
      buffer = some calls;
      has_push_batch = batch;
    }

    collect_step-made :
        (k : ℕ) (w : World Env Obs Explore) (cont : Bool) (hs : List History)
        (completed : List F.Carrier) (calls : List (Push F Obs Act)) (batch : Bool)
        (step total_steps : ℕ)
        → (collect_step F Env Obs Act Explore P get_action
            (made k w cont hs completed calls batch)
            step
            total_steps).0
          ≡ made k
              (interact F Env Obs Act Explore P get_action cont w step total_steps).1
              cont
              (push_rows hs
                (interact F Env Obs Act Explore P get_action cont w step total_steps).0.rows)
              (completed
                ++ finished hs
                    (interact F Env Obs Act Explore P get_action cont w step total_steps).0.rows)
              (calls
                ++ pushes F Env Obs Act Explore P k batch
                    (interact F Env Obs Act Explore P get_action cont w step total_steps).0)
              batch
    unfolding collect_step made
    collect_step-made k w cont hs completed calls batch step total_steps =
        let t = (interact F Env Obs Act Explore P get_action cont w step total_steps).0 in
        rw (collect_step, track-finished hs t.rows) refl

    collect_steps-made :
        (n k : ℕ) (w : World Env Obs Explore) (cont : Bool) (hs : List History)
        (completed : List F.Carrier) (calls : List (Push F Obs Act)) (batch : Bool)
        (step total_steps : ℕ)
        → collect_steps F Env Obs Act Explore P get_action n
            (made k w cont hs completed calls batch)
            step
            total_steps
          ≡ made k
              (world_after cont w n step total_steps)
              cont
              (histories hs (turns cont w n step total_steps))
              (completed ++ ended hs (turns cont w n step total_steps))
              (calls ++ all_pushes k batch (turns cont w n step total_steps))
              batch
    unfolding collect_steps
    collect_steps-made zero k w cont hs completed calls batch step total_steps =
        rw (append-nil completed, append-nil calls) refl
    collect_steps-made (suc n) k w cont hs completed calls batch step total_steps =
        let t = (interact F Env Obs Act Explore P get_action cont w step total_steps).0 in
        let w' = (interact F Env Obs Act Explore P get_action cont w step total_steps).1 in
        let hs' = push_rows hs t.rows in
        let rest = turns cont w' n (step + 1) total_steps in
        ap (λ c. collect_steps F Env Obs Act Explore P get_action n c (step + 1) total_steps)
          (collect_step-made k w cont hs completed calls batch step total_steps)
        ∙ collect_steps-made n k w' cont hs' (completed ++ finished hs t.rows)
            (calls ++ pushes F Env Obs Act Explore P k batch t) batch (step + 1) total_steps
        ∙ ap
            (λ (f : List F.Carrier).
              made k (world_after cont w' n (step + 1) total_steps) cont (histories hs' rest) f
                ((calls ++ pushes F Env Obs Act Explore P k batch t) ++ all_pushes k batch rest)
                batch)
            (append_assoc completed (finished hs t.rows) (ended hs' rest))
        ∙ ap
            (λ (cs : List (Push F Obs Act)).
              made k (world_after cont w' n (step + 1) total_steps) cont (histories hs' rest)
                (completed ++ (finished hs t.rows ++ ended hs' rest)) cs batch)
            (append_assoc calls (pushes F Env Obs Act Explore P k batch t)
              (all_pushes k batch rest))

    no_histories : (k : ℕ) → replicate k (F.of_ℕ 0) ≡ map return_of (replicate k [])
    no_histories zero = refl
    no_histories (suc k) = ap (λ (es : List F.Carrier). F.of_ℕ 0 ∷ es) (no_histories k)

    -- The world in which a collection starts.
    abbrev pub reset_world : World Env Obs Explore → World Env Obs Explore
    reset_world w = record {
      env = (P.reset_all w.env).1;
      obs = (P.reset_all w.env).0;
      exploration = elim w.exploration [ none ↦ none | some x ↦ some (P.reset_exploration x) ];
    }

    reset-made :
        (c : OffPolicyCollector F Env Obs Act Explore) (calls : List (Push F Obs Act))
        → c.buffer ≡ some calls
        → reset F Env Obs Act Explore P c
          ≡ made c.n_envs
              (reset_world c.world)
              c.is_continuous
              (replicate c.n_envs [])
              []
              calls
              c.has_push_batch
    unfolding reset made
    reset-made c calls known =
        ap
          (λ (b : Option (List (Push F Obs Act))). record (reset F Env Obs Act Explore P c) {
            buffer = b;
          })
          known
        ∙ ap
            (λ (es : List F.Carrier). record (reset F Env Obs Act Explore P c) {
              buffer = some calls;
              ep_rewards = es;
            })
            (no_histories c.n_envs)

    -- After `reset`, with a buffer, any number of steps: the completed rewards are, step by step and
    -- in the order of the environments, the total rewards of the episodes that ended, each
    -- from the row behind the environment's previous end of an episode; the running rewards are
    -- the totals of the episodes that are running; the buffer was given exactly the
    -- transitions of each step, in order; and what is returned is the mean of the last ten of
    -- the completed rewards (of all, where there are fewer, and zero if there is none), whether
    -- or not they are all of those that ended during these steps.
    pub collect_n_steps-ended :
        (c : OffPolicyCollector F Env Obs Act Explore) (calls : List (Push F Obs Act))
        (n step total_steps : ℕ)
        → c.buffer ≡ some calls
        → (q : OffPolicyCollector F Env Obs Act Explore) × (collect_n_steps F Env Obs Act Explore P
              get_action
              (reset F Env Obs Act Explore P c)
              n
              step
              total_steps
            ≡ (
              q,
              mean_reward F Env Obs Act Explore P (
                  ended
                    (replicate c.n_envs [])
                    (turns c.is_continuous (reset_world c.world) n step total_steps)),
            ))
          × (q.completed_rewards
              ≡ ended
                  (replicate c.n_envs [])
                  (turns c.is_continuous (reset_world c.world) n step total_steps))
          × (q.ep_rewards
              ≡ map return_of (
                  histories
                    (replicate c.n_envs [])
                    (turns c.is_continuous (reset_world c.world) n step total_steps)))
          × (q.buffer
              ≡ some (
                  calls
                  ++ all_pushes c.n_envs c.has_push_batch
                      (turns c.is_continuous (reset_world c.world) n step total_steps)))
    unfolding collect_n_steps made
    collect_n_steps-ended c calls n step total_steps known =
        let w = reset_world c.world in
        let ts = turns c.is_continuous w n step total_steps in
        let reached =
          ap
            (λ (d : OffPolicyCollector F Env Obs Act Explore).
              collect_steps F Env Obs Act Explore P get_action n d step total_steps)
            (reset-made c calls known)
          ∙ collect_steps-made n c.n_envs w c.is_continuous (replicate c.n_envs []) [] calls
              c.has_push_batch step total_steps in
        (
          made c.n_envs (world_after c.is_continuous w n step total_steps) c.is_continuous
              (histories (replicate c.n_envs []) ts) (ended (replicate c.n_envs []) ts)
              (calls ++ all_pushes c.n_envs c.has_push_batch ts) c.has_push_batch,
          ap
              (λ (d : OffPolicyCollector F Env Obs Act Explore).
                (d, mean_reward F Env Obs Act Explore P d.completed_rewards))
              reached,
          refl,
          refl,
          refl,
        )
