-- ===== src/Config/Schemas/Populations.antt =====
-- python/rlox/config.py: the classes of the meta-algorithms.
use rlox.Base.{[], ◌∷◌}
use rlox.Base.Float.{Float}
use rlox.Config.Values.{at_least, one_of, number, string}
use rlox.Config.Mixin.{Schema}

module _ (F : Float) where
  abbrev pub pbt_config : Schema F
  pbt_config = record {
    fields =
        ("population_size", number (F.of_ℕ 8))
        ∷ ("interval", number (F.of_ℕ 10000))
        ∷ ("n_iterations", number (F.of_ℕ 20))
        ∷ ("exploit_fraction", number (F.ratio 2 10))
        ∷ ("perturb_factor", number (F.ratio 2 10))
        ∷ [];
    aliases = [];
    rules = at_least "population_size" 2 ∷ at_least "interval" 1 ∷ at_least "n_iterations" 1 ∷ [];
  }

  abbrev pub self_play_config : Schema F
  self_play_config = record {
    fields =
        ("pool_size", number (F.of_ℕ 20))
        ∷ ("snapshot_freq", number (F.of_ℕ 10000))
        ∷ ("matchmaking", string "uniform")
        ∷ ("initial_elo", number (F.ratio 10000 10))
        ∷ ("elo_k", number (F.ratio 320 10))
        ∷ ("opponent_fraction", number (F.ratio 8 10))
        ∷ [];
    aliases = [];
    rules =
        at_least "pool_size" 1
        ∷ at_least "snapshot_freq" 1
        ∷ one_of "matchmaking" ("uniform" ∷ "latest" ∷ "elo" ∷ [])
        ∷ [];
  }

  abbrev pub go_explore_config : Schema F
  go_explore_config = record {
    fields =
        ("archive_size", number (F.of_ℕ 100000))
        ∷ ("cell_resolution", number (F.of_ℕ 8))
        ∷ ("exploration_steps", number (F.of_ℕ 100))
        ∷ ("score_weight", number (F.ratio 3 10))
        ∷ ("novelty_weight", number (F.ratio 7 10))
        ∷ [];
    aliases = [];
    rules =
        at_least "archive_size" 1
        ∷ at_least "cell_resolution" 1
        ∷ at_least "exploration_steps" 1
        ∷ [];
  }
