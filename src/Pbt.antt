-- ===== src/Pbt.antt =====
-- python/rlox/pbt.py: `PBT`, population-based training.
-- The algorithm that is trained, its collector, the uniform draws and the order in which a set of
-- indices is walked are parameters, and so is how a list with NaN is sorted. A list index out of range raises IndexError, `none` here.
pub mod Ranking
pub mod Exploit
mod Tests
use rlox.Base.{
  ℕ, zero, suc, ◌+◌, ◌*◌, max, Bool, true, false, ◌&&◌, Option, none, some, List, [], ◌∷◌, ◌++◌,
  map, if◌then◌else◌, ◌==◌, length, get_elem?, set, take, last_n, replicate, ◌>>=◌, Result, ok,
  raised, String,
}
use rlox.Base.Float.{Float}
use rlox.Base.Dict.{Dict, lookup, string_eq}

module _ (F : Float) (Weights Rest : Type 0) where
  -- An agent: the weights of its policy and the learning rates of its optimizer's groups, if it has
  -- them, and everything else.
  pub record Agent : Type 0 where
    pub policy : Option Weights
    pub learning_rates : Option (List F.Carrier)
    pub rest : Rest

  pub record PbtConfig : Type 0 where
    pub population_size : ℕ
    pub interval : ℕ
    pub n_iterations : ℕ
    pub exploit_fraction : F.Carrier
    pub perturb_factor : F.Carrier

  pub record Pbt (Rng : Type 0) : Type 0 where
    pub config : PbtConfig
    pub agents : List Agent
    pub fitnesses : List F.Carrier
    -- a set, as its elements in the order in which they came in
    pub exploited_indices : List ℕ
    pub rng : Rng

  -- The agents of `__init__`, the class of the algorithm being applied to the seeds
  abbrev pub created : (ℕ → Agent) → ℕ → ℕ → List Agent
  created make seed zero = []
  created make seed (suc n) = make seed ∷ created make (suc seed) n

  -- `__init__`, from the registry, where `PBTConfig` accepts its arguments. ValueError is `none`.
  unfoldable pub init :
      (Rng : Type 0)
      → (lower : String → String) → (seeded : ℕ → Rng) → Dict String (ℕ → Agent)
      → String
      → PbtConfig
      → ℕ
      → Option (Pbt Rng)
  init Rng lower seeded registry algo config seed = do
    make ← lookup (lower algo) registry
    some (record {
      config = config;
      agents = created make seed config.population_size;
      fitnesses = replicate config.population_size (F.of_ℕ 0);
      exploited_indices = [];
      rng = seeded seed;
    })

  -- `enumerate(fitnesses)`
  abbrev pub numbered : ℕ → List F.Carrier → List (ℕ × F.Carrier)
  numbered i [] = []
  numbered i (x ∷ xs) = (i, x) ∷ numbered (suc i) xs

  -- Before the first that is not greater
  unfoldable pub insert_ranked : ℕ × F.Carrier → List (ℕ × F.Carrier) → List (ℕ × F.Carrier)
  insert_ranked x [] = x ∷ []
  insert_ranked x (y ∷ ys) =
      let rest = insert_ranked x ys in if F.lt x.1 y.1 then y ∷ rest else x ∷ y ∷ ys

  -- `sorted(..., reverse=True)` by the fitness, if no fitness is NaN: the order of equals is kept.
  unfoldable pub sort_ranked : List (ℕ × F.Carrier) → List (ℕ × F.Carrier)
  unfolding insert_ranked
  sort_ranked [] = []
  sort_ranked (x ∷ xs) = insert_ranked x (sort_ranked xs)

  -- No fitness is NaN, the one float that differs from itself.
  abbrev pub none_is_nan : List F.Carrier → Bool
  none_is_nan [] = true
  none_is_nan (x ∷ xs) = F.eq x x && none_is_nan xs

  -- The indices in the order of `sorted`. With NaN that order depends on how the interpreter sorts,
  -- which is `undetermined`.
  unfoldable pub ranked : (List (ℕ × F.Carrier) → List (ℕ × F.Carrier)) → List F.Carrier → List ℕ
  unfolding sort_ranked
  ranked undetermined fitnesses =
      let pairs = numbered 0 fitnesses in
      map (λ (p : ℕ × F.Carrier). p.0)
        (if none_is_nan fitnesses then sort_ranked pairs else undetermined pairs)

  -- `max(1, int(n * exploit_fraction))`; a negative product, which `int` rounds to zero or below,
  -- gives one, as `trunc` of it does if it is zero.
  abbrev pub n_replace : PbtConfig → ℕ
  n_replace c = max 1 (F.trunc (F.mul (F.of_ℕ c.population_size) c.exploit_fraction))

  -- `load_state_dict`, if both have a policy
  abbrev pub copied : Agent → Agent → Agent
  copied worst best = elim best.policy [
    | none ↦ worst
    | some w ↦ elim worst.policy [ none ↦ worst | some v ↦ record worst { policy = some w } ]
  ]

  -- The loop over the pairs of the worst and the best
  unfoldable pub copy_each : List ℕ → List ℕ → List Agent → Option (List Agent)
  copy_each [] bs agents = some agents
  copy_each (w ∷ ws) [] agents = some agents
  copy_each (w ∷ ws) (b ∷ bs) agents = do
    best ← get_elem? agents b
    worst ← get_elem? agents w
    copy_each ws bs (set agents w (copied worst best))

  module _ (Rng : Type 0) (undetermined : List (ℕ × F.Carrier) → List (ℕ × F.Carrier)) where
    unfoldable pub exploit : Pbt Rng → Option (Pbt Rng)
    unfolding copy_each ranked
    exploit p = do
      let k = n_replace p.config
      let order = ranked undetermined p.fitnesses
      agents ← copy_each (last_n k order) (take k order) p.agents
      some (record p { agents = agents; exploited_indices = last_n k order })

    module _ (uniform : F.Carrier → F.Carrier → Rng → F.Carrier × Rng) where
      -- The learning rates of an agent's groups
      unfoldable pub perturb : F.Carrier → List F.Carrier → Rng → List F.Carrier × Rng
      perturb f [] r = ([], r)
      perturb f (lr ∷ lrs) r =
          let (u, r') = uniform (F.sub (F.of_ℕ 0) f) f r in
          let (rest, r'') = perturb f lrs r' in (F.mul lr (F.add (F.of_ℕ 1) u) ∷ rest, r'')

      abbrev pub explored : F.Carrier → Agent → Rng → Agent × Rng
      explored f a r = elim a.learning_rates [
        | none ↦ (a, r)
        | some lrs ↦
            let (lrs', r') = perturb f lrs r in (record a { learning_rates = some lrs' }, r')
      ]

      unfoldable pub explore_each :
          F.Carrier → List ℕ → List Agent → Rng → Option (List Agent × Rng)
      unfolding perturb
      explore_each f [] agents r = some (agents, r)
      explore_each f (i ∷ is) agents r = do
        a ← get_elem? agents i
        let done = explored f a r
        explore_each f is (set agents i done.0) done.1

      module _ (walked : List ℕ → List ℕ) where
        unfoldable pub explore : Pbt Rng → Option (Pbt Rng)
        unfolding explore_each
        explore p = do
          r ← explore_each p.config.perturb_factor (walked p.exploited_indices) p.agents p.rng
          some (record p { agents = r.0; rng = r.1 })

        module _ (train : ℕ → Agent → Agent)
            (collect : ℕ → Agent → Option (F.Carrier × ℕ × Agent)) where
          -- `_evaluate`: the sum of the rewards over at least one environment, and the agent after
          -- it. `collect` gives the sum and the number of environments, if there is a collector.
          unfoldable pub evaluate : Agent → F.Carrier × Agent
          evaluate a = elim a.policy [
            | none ↦ (F.of_ℕ 0, a)
            | some w ↦ elim (collect 128 a) [
              | none ↦ (F.of_ℕ 0, a)
              | some (total, n_envs, a') ↦ (F.div total (F.of_ℕ (max n_envs 1)), a')
            ]
          ]

          -- One iteration of `run`
          unfoldable pub iterate : Pbt Rng → Option (Pbt Rng)
          unfolding evaluate exploit explore
          iterate p = do
            let trained = map (train p.config.interval) p.agents
            let evaluated = map evaluate trained
            q ← exploit (record p {
              agents = map (λ (e : F.Carrier × Agent). e.1) evaluated;
              fitnesses = map (λ (e : F.Carrier × Agent). e.0) evaluated;
            })
            explore q

          -- The loop of `run`, with the iterations that are left
          unfoldable pub run : ℕ → Pbt Rng → Option (Pbt Rng)
          unfolding iterate
          run zero p = some p
          run (suc n) p = do q ← iterate p; run n q

          -- What `run` gives back; `max` of no fitness raises.
          pub record Outcome : Type 0 where
            pub best_fitness : F.Carrier
            pub all_fitnesses : List F.Carrier
            pub n_iterations : ℕ

          abbrev pub maximum : F.Carrier → List F.Carrier → F.Carrier
          maximum x [] = x
          maximum x (y ∷ ys) = maximum (if F.lt x y then y else x) ys

          unfoldable pub outcome : Pbt Rng → Option Outcome
          outcome p = elim p.fitnesses [
            | [] ↦ none
            | x ∷ xs ↦ some (record {
              best_fitness = maximum x xs;
              all_fitnesses = x ∷ xs;
              n_iterations = p.config.n_iterations;
            })
          ]
