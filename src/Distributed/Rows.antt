-- ===== src/Distributed/Rows.antt =====
-- python/rlox/distributed/pipeline.py: what the rows of a collected batch are.
use rlox.Base.{
  ℕ, zero, suc, ◌+◌, ◌*◌, ◌<◌, ◌≡◌, refl, sym, ap, ◌∙◌, subst, some, List, length, length-map,
  length-replicate, get_elem?, replicate, ◌>>=◌, arith,
}
use rlox.Base.Float.{Float}
use rlox.Batch.{RolloutBatch}
use rlox.Batch.Minibatches.{HasRows}
use rlox.Distributed.Collection.{
  column, concat, Parts, Loop, Turn, turns, gae_from, batch_of, collect,
}
use rlox.Distributed.Layout.{at, HaveLength, get_elem?-concat, length-concat, flattened}
use rlox.Distributed.Estimates.{
  replicate-HaveLength, transposed_flat, IsVectorised, IsTable, turns-IsTable, estimate, Estimated,
  gae_from-Estimated, IsEstimate, values, table,
}

module _ (F : Float) (Env Rng Obs : Type 0) (P : Parts F Env Rng Obs) where
  -- Row `t * n_envs + e` of a batch is step `t` of environment `e`, with the estimates of that
  -- environment's rewards and dones at that step.
  pub record IsRow (n_envs : ℕ) (ts : List (Turn F Env Rng Obs)) (b : RolloutBatch Obs ℕ F.Carrier)
      (t e : ℕ) : Type 0 where
    pub obs : get_elem? b.obs (t * n_envs + e) ≡ at t e (table F Env Rng Obs P (λ x. x.obs) ts)
    pub actions :
        get_elem? b.actions (t * n_envs + e) ≡ at t e (table F Env Rng Obs P (λ x. x.actions) ts)
    pub rewards :
        get_elem? b.rewards (t * n_envs + e) ≡ at t e (table F Env Rng Obs P (λ x. x.rewards) ts)
    pub dones :
        get_elem? b.dones (t * n_envs + e) ≡ at t e (table F Env Rng Obs P (λ x. x.dones) ts)
    -- the rewards and dones of the environment
    pub env_rewards : List F.Carrier
    pub env_dones : List F.Carrier
    pub of_rewards : column e (table F Env Rng Obs P (λ x. x.rewards) ts) ≡ some env_rewards
    pub of_dones : column e (table F Env Rng Obs P (λ x. x.dones) ts) ≡ some env_dones
    pub advantages :
        get_elem? b.advantages (t * n_envs + e)
        ≡ get_elem? (estimate F Env Rng Obs P env_rewards env_dones).0 t
    pub returns :
        get_elem? b.returns (t * n_envs + e)
        ≡ get_elem? (estimate F Env Rng Obs P env_rewards env_dones).1 t

  flat_length :
      {A : Type 0} (m n : ℕ) (rows : List (List A))
      → HaveLength n rows
      → length rows ≡ m
      → length (concat rows) ≡ m * n
  flat_length m n rows h l = rw (sym l) (length-concat n rows h)

  batch_of-IsRow :
      (m n : ℕ) (v : IsVectorised F Env Rng Obs P (suc n)) (ts : List (Turn F Env Rng Obs))
      (t e : ℕ)
      → IsTable F Env Rng Obs P (suc m) (suc n) ts
      → t < suc m
      → e < suc n
      → (b : RolloutBatch Obs ℕ F.Carrier) × (batch_of F Env Rng Obs P (suc n) (suc m) ts ≡ some b)
        × HasRows (suc m * suc n) b
        × IsRow (suc n) ts b t e
  unfolding batch_of Estimated
  batch_of-IsRow m n v ts t e (len, o, a, r, d) below inside =
      let rs = table F Env Rng Obs P (λ (x : Turn F Env Rng Obs). x.rewards) ts in
      let ds = table F Env Rng Obs P (λ (x : Turn F Env Rng Obs). x.dones) ts in
      let (advs, rets, eq, lens, wides, ests) =
        gae_from-Estimated F Env Rng Obs P m n v rs ds r d (length-map ts _ ∙ len)
          (length-map ts _ ∙ len) (suc n) 0 (omega arith) in
      let (adv, ret, at_adv, at_ret, est) = ests e inside in
      let zero_on : 0 + e ≡ e = omega arith in
      let (rew, don, of_r, of_d, is_adv, is_ret) : IsEstimate F Env Rng Obs P m n v rs ds e adv
          ret =
        subst (λ i. IsEstimate F Env Rng Obs P m n v rs ds i adv ret) zero_on est in
      let zs = replicate (length ts) (replicate (suc n) (F.of_ℕ 0)) in
      let hz : HaveLength (suc n) zs = replicate-HaveLength (length ts) (suc n) (F.of_ℕ 0) in
      let lz : length zs ≡ suc m = length-replicate (length ts) _ ∙ len in
      let same : values F Env Rng Obs P m n v rs ds ≡ zs =
        ap (λ k. replicate k (replicate (suc n) (F.of_ℕ 0))) (sym len) in
      let (asd, as_eq, as_len, as_wide, as_at) = transposed_flat m n advs wides.0 lens.0 in
      let (bs, bs_eq, bs_len, bs_wide, bs_at) = transposed_flat m n rets wides.1 lens.1 in
      let eq' : gae_from F Env Rng Obs P 0 (suc n) rs zs ds ≡ some (advs, rets) =
        subst (λ z. gae_from F Env Rng Obs P 0 (suc n) rs z ds ≡ some (advs, rets)) same eq in
      let os = table F Env Rng Obs P (λ (x : Turn F Env Rng Obs). x.obs) ts in
      let acts = table F Env Rng Obs P (λ (x : Turn F Env Rng Obs). x.actions) ts in
      let lo : length os ≡ suc m = length-map ts _ ∙ len in
      let la : length acts ≡ suc m = length-map ts _ ∙ len in
      let lr : length rs ≡ suc m = length-map ts _ ∙ len in
      let ld : length ds ≡ suc m = length-map ts _ ∙ len in
      (
        record {
          obs = concat os;
          actions = concat acts;
          rewards = concat rs;
          dones = concat ds;
          log_probs = concat zs;
          values = concat zs;
          advantages = concat asd;
          returns = concat bs;
        },
        rw
            (
              batch_of,
              eq',
              flattened m (suc n) os o lo,
              flattened m (suc n) acts a la,
              flattened m (suc n) rs r lr,
              flattened m (suc n) ds d ld,
              flattened m (suc n) zs hz lz,
              as_eq,
              bs_eq,
            )
            refl,
        record {
          obs = flat_length (suc m) (suc n) os o lo;
          actions = flat_length (suc m) (suc n) acts a la;
          rewards = flat_length (suc m) (suc n) rs r lr;
          dones = flat_length (suc m) (suc n) ds d ld;
          log_probs = flat_length (suc m) (suc n) zs hz lz;
          values = flat_length (suc m) (suc n) zs hz lz;
          advantages = flat_length (suc m) (suc n) asd as_wide as_len;
          returns = flat_length (suc m) (suc n) bs bs_wide bs_len;
        },
        record {
          obs = get_elem?-concat (suc n) os t e o inside;
          actions = get_elem?-concat (suc n) acts t e a inside;
          rewards = get_elem?-concat (suc n) rs t e r inside;
          dones = get_elem?-concat (suc n) ds t e d inside;
          env_rewards = rew;
          env_dones = don;
          of_rewards = of_r;
          of_dones = of_d;
          advantages =
              get_elem?-concat (suc n) asd t e as_wide inside
              ∙ as_at t e below
              ∙ ap (λ x. x >>= λ row. get_elem? row t) at_adv
              ∙ ap (λ row. get_elem? row t) is_adv;
          returns =
              get_elem?-concat (suc n) bs t e bs_wide inside
              ∙ bs_at t e below
              ∙ ap (λ x. x >>= λ row. get_elem? row t) at_ret
              ∙ ap (λ row. get_elem? row t) is_ret;
        },
      )

  -- With at least one environment and one step, environments that give a row each, and an estimator
  -- that gives as many values as it gets: a round makes a batch with a row for each step and
  -- environment in every column; row `t * n_envs + e` holds the observation, action, reward and
  -- done of step `t` in environment `e`, and the advantage and return that the estimator gives
  -- for step `t` from the rewards and dones of environment `e` alone, with values of zero.
  pub collect-IsRow :
      (n_steps n_envs t e : ℕ) (l : Loop F Env Rng Obs)
      → IsVectorised F Env Rng Obs P n_envs
      → length l.obs ≡ n_envs
      → t < n_steps
      → e < n_envs
      → (b : RolloutBatch Obs ℕ F.Carrier) × (collect F Env Rng Obs P n_envs n_steps l
          ≡ some (b, (turns F Env Rng Obs P n_envs n_steps l).1))
        × HasRows (n_steps * n_envs) b
        × IsRow n_envs (turns F Env Rng Obs P n_envs n_steps l).0 b t e
  unfolding collect
  collect-IsRow zero n t e l v h below inside = absurd (omega arith)
  collect-IsRow (suc m) zero t e l v h below inside = absurd (omega arith)
  collect-IsRow (suc m) (suc n) t e l v h below inside =
      let (b, eq, rows, row) =
        batch_of-IsRow m n v (turns F Env Rng Obs P (suc n) (suc m) l).0 t e
          (turns-IsTable F Env Rng Obs P (suc n) (suc m) l v h) below inside in
      (b, rw (collect, eq) refl, rows, row)
