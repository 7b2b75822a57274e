-- ===== src/Distributed/Collection.antt =====
-- python/rlox/distributed/pipeline.py: one round of `_collector_loop`, which makes a batch.
-- VecEnv, numpy's random actions, compute_gae and the casts to float32 are parameters. A tensor is
-- the list of its rows; where torch or an index raises, the round is `none`.
use rlox.Base.{
  ℕ, zero, suc, ◌*◌, Bool, true, ◌&&◌, Option, none, some, List, [], ◌∷◌, ◌++◌, map, if◌then◌else◌,
  ◌==◌, length, get_elem?, replicate, ◌>>=◌,
}
use rlox.Base.Float.{Float}
use rlox.Batch.{RolloutBatch}
use rlox.Collector.{Row, done}

module _ {A : Type 0} where
  -- `torch.stack([r[i] for r in rows])`, before the test that there is a row
  unfoldable pub column : ℕ → List (List A) → Option (List A)
  column i [] = some []
  column i (r ∷ rows) = do x ← get_elem? r i; xs ← column i rows; some (x ∷ xs)

  -- `n` columns from the one at `i` on
  unfoldable pub columns : ℕ → ℕ → List (List A) → Option (List (List A))
  columns i zero rows = some []
  columns i (suc n) rows = do c ← column i rows; cs ← columns (suc i) n rows; some (c ∷ cs)

  abbrev pub have_length : ℕ → List (List A) → Bool
  have_length n [] = true
  have_length n (r ∷ rows) = (length r == n) && have_length n rows

  -- `torch.stack` of tensors with one dimension
  unfoldable pub stack : List (List A) → Option (List (List A))
  stack [] = none
  stack (r ∷ rows) = if have_length (length r) rows then some (r ∷ rows) else none

  -- `torch.stack` of scalars
  unfoldable pub stack_scalars : List A → Option (List A)
  stack_scalars [] = none
  stack_scalars (x ∷ xs) = some (x ∷ xs)

  -- `.T`
  unfoldable pub transposed : List (List A) → Option (List (List A))
  transposed [] = some []
  transposed (r ∷ rows) = columns 0 (length r) (r ∷ rows)

  abbrev pub concat : List (List A) → List A
  concat [] = []
  concat (r ∷ rows) = r ++ concat rows

  -- `.reshape(total)`
  unfoldable pub reshape : ℕ → List (List A) → Option (List A)
  reshape total rows = if length (concat rows) == total then some (concat rows) else none

module _ (F : Float) (Env Rng Obs : Type 0) where
  pub record Parts : Type 0 where
    pub step_all : List ℕ → Env → List (Row F Obs) × Env
    -- `np.random.randint(0, high, size=n)`, from `high` and `n`
    pub randint : ℕ → ℕ → Rng → List ℕ × Rng
    -- from the rewards, values and dones of an environment, the last value, gamma and lambda
    pub compute_gae :
        List F.Carrier
        → List F.Carrier
        → List F.Carrier
        → F.Carrier
        → F.Carrier
        → F.Carrier
        → List F.Carrier × List F.Carrier
    pub cast_obs : Obs → Obs
    pub cast : F.Carrier → F.Carrier

  -- The variables of the thread that last from one round to the next.
  pub record Loop : Type 0 where
    pub env : Env
    pub obs : List Obs
    pub rng : Rng

  -- What one step appends to `all_obs`, `all_actions`, `all_rewards` and `all_dones`.
  pub record Turn : Type 0 where
    pub obs : List Obs
    pub actions : List ℕ
    pub rewards : List F.Carrier
    pub dones : List F.Carrier

  module _ (P : Parts) where
    abbrev pub turn : ℕ → Loop → Turn × Loop
    turn n_envs l =
        let (actions, rng') = P.randint 2 n_envs l.rng in
        let (rows, env') = P.step_all actions l.env in
        (
          record {
            obs = map P.cast_obs l.obs;
            actions = actions;
            rewards = map (λ (r : Row F Obs). P.cast r.reward) rows;
            dones = map (λ r. if done F Obs r then F.of_ℕ 1 else F.of_ℕ 0) rows;
          },
          record { env = env'; obs = map (λ (r : Row F Obs). r.next_obs) rows; rng = rng' },
        )

    -- `for _ in range(self.n_steps)`
    unfoldable pub turns : ℕ → ℕ → Loop → List Turn × Loop
    turns n_envs zero l = ([], l)
    turns n_envs (suc n) l =
        let (t, l') = turn n_envs l in let (ts, l'') = turns n_envs n l' in (t ∷ ts, l'')

    -- The advantages and returns of one environment
    unfoldable pub gae_of :
        ℕ
        → List (List F.Carrier)
        → List (List F.Carrier)
        → List (List F.Carrier)
        → Option (List F.Carrier × List F.Carrier)
    gae_of e rewards values dones = do
      rewards_env ← column e rewards >>= stack_scalars
      values_env ← column e values >>= stack_scalars
      dones_env ← column e dones >>= stack_scalars
      let r =
          P.compute_gae rewards_env values_env dones_env (F.of_ℕ 0) (F.ratio 99 100)
            (F.ratio 95 100)
      some (map P.cast r.0, map P.cast r.1)

    -- `for env_idx in range(self.n_envs)`, with the environments that are left
    unfoldable pub gae_from :
        ℕ
        → ℕ
        → List (List F.Carrier)
        → List (List F.Carrier)
        → List (List F.Carrier)
        → Option (List (List F.Carrier) × List (List F.Carrier))
    gae_from e zero rewards values dones = some ([], [])
    gae_from e (suc n) rewards values dones = do
      r ← gae_of e rewards values dones
      rs ← gae_from (suc e) n rewards values dones
      some (r.0 ∷ rs.0, r.1 ∷ rs.1)

    module _ (n_envs n_steps : ℕ) where
      -- Stacked and flattened
      unfoldable pub batch_of : List Turn → Option (RolloutBatch Obs ℕ F.Carrier)
      batch_of ts = do
        let all_rewards = map (λ (t : Turn). t.rewards) ts
        let all_dones = map (λ (t : Turn). t.dones) ts
        let zeros = replicate (length ts) (replicate n_envs (F.of_ℕ 0))
        gae ← gae_from 0 n_envs all_rewards zeros all_dones
        let total = n_steps * n_envs
        obs ← stack (map (λ (t : Turn). t.obs) ts) >>= reshape total
        actions ← stack (map (λ (t : Turn). t.actions) ts) >>= reshape total
        rewards ← stack all_rewards >>= reshape total
        dones ← stack all_dones >>= reshape total
        log_probs ← stack zeros >>= reshape total
        advantages ← stack gae.0 >>= transposed >>= reshape total
        returns ← stack gae.1 >>= transposed >>= reshape total
        some (record {
          obs = obs;
          actions = actions;
          rewards = rewards;
          dones = dones;
          log_probs = log_probs;
          values = log_probs;
          advantages = advantages;
          returns = returns;
        })

      -- One round: the batch, and the loop's variables after it
      unfoldable pub collect : Loop → Option (RolloutBatch Obs ℕ F.Carrier × Loop)
      collect l = do let r = turns n_envs n_steps l; b ← batch_of r.0; some (b, r.1)
