-- ===== src/Config/Schemas/OnPolicy.antt =====
-- python/rlox/config.py: the classes of the on-policy algorithms.
use rlox.Base.{true, false, [], ◌∷◌}
use rlox.Base.Float.{Float}
use rlox.Config.Values.{positive, at_least, boolean, number}
use rlox.Config.Mixin.{Schema}

module _ (F : Float) where
  abbrev pub ppo_config : Schema F
  ppo_config = record {
    fields =
        ("n_envs", number (F.of_ℕ 8))
        ∷ ("n_steps", number (F.of_ℕ 128))
        ∷ ("n_epochs", number (F.of_ℕ 4))
        ∷ ("batch_size", number (F.of_ℕ 256))
        ∷ ("learning_rate", number (F.ratio 25 100000))
        ∷ ("clip_eps", number (F.ratio 2 10))
        ∷ ("vf_coef", number (F.ratio 5 10))
        ∷ ("ent_coef", number (F.ratio 1 100))
        ∷ ("max_grad_norm", number (F.ratio 5 10))
        ∷ ("gamma", number (F.ratio 99 100))
        ∷ ("gae_lambda", number (F.ratio 95 100))
        ∷ ("normalize_advantages", boolean true)
        ∷ ("clip_vloss", boolean true)
        ∷ ("anneal_lr", boolean true)
        ∷ ("normalize_rewards", boolean false)
        ∷ ("normalize_obs", boolean false)
        ∷ [];
    aliases = ("normalize_reward", "normalize_rewards") ∷ ("clip_range", "clip_eps") ∷ [];
    rules =
        positive "learning_rate"
        ∷ at_least "n_envs" 1
        ∷ at_least "n_steps" 1
        ∷ at_least "n_epochs" 1
        ∷ at_least "batch_size" 1
        ∷ [];
  }

  abbrev pub a2c_config : Schema F
  a2c_config = record {
    fields =
        ("learning_rate", number (F.ratio 7 10000))
        ∷ ("n_steps", number (F.of_ℕ 5))
        ∷ ("gamma", number (F.ratio 99 100))
        ∷ ("gae_lambda", number (F.ratio 10 10))
        ∷ ("vf_coef", number (F.ratio 5 10))
        ∷ ("ent_coef", number (F.ratio 1 100))
        ∷ ("max_grad_norm", number (F.ratio 5 10))
        ∷ ("normalize_advantages", boolean false)
        ∷ ("n_envs", number (F.of_ℕ 8))
        ∷ ("hidden", number (F.of_ℕ 64))
        ∷ [];
    aliases = [];
    rules = positive "learning_rate" ∷ at_least "n_steps" 1 ∷ at_least "n_envs" 1 ∷ [];
  }

  abbrev pub impala_config : Schema F
  impala_config = record {
    fields =
        ("learning_rate", number (F.ratio 4 10000))
        ∷ ("n_actors", number (F.of_ℕ 4))
        ∷ ("n_steps", number (F.of_ℕ 20))
        ∷ ("gamma", number (F.ratio 99 100))
        ∷ ("vf_coef", number (F.ratio 5 10))
        ∷ ("ent_coef", number (F.ratio 1 100))
        ∷ ("max_grad_norm", number (F.ratio 400 10))
        ∷ ("rho_clip", number (F.ratio 10 10))
        ∷ ("c_clip", number (F.ratio 10 10))
        ∷ ("queue_size", number (F.of_ℕ 16))
        ∷ ("hidden", number (F.of_ℕ 256))
        ∷ ("n_envs_per_actor", number (F.of_ℕ 1))
        ∷ [];
    aliases = [];
    rules =
        positive "learning_rate"
        ∷ at_least "n_actors" 1
        ∷ at_least "n_steps" 1
        ∷ at_least "queue_size" 1
        ∷ at_least "n_envs_per_actor" 1
        ∷ [];
  }

  abbrev pub trpo_config : Schema F
  trpo_config = record {
    fields =
        ("max_kl", number (F.ratio 1 100))
        ∷ ("damping", number (F.ratio 1 10))
        ∷ ("cg_iters", number (F.of_ℕ 10))
        ∷ ("line_search_steps", number (F.of_ℕ 10))
        ∷ ("n_envs", number (F.of_ℕ 8))
        ∷ ("n_steps", number (F.of_ℕ 2048))
        ∷ ("gamma", number (F.ratio 99 100))
        ∷ ("gae_lambda", number (F.ratio 97 100))
        ∷ ("vf_lr", number (F.ratio 1 1000))
        ∷ ("vf_epochs", number (F.of_ℕ 5))
        ∷ [];
    aliases = [];
    rules =
        positive "max_kl"
        ∷ positive "damping"
        ∷ at_least "cg_iters" 1
        ∷ at_least "line_search_steps" 1
        ∷ at_least "n_envs" 1
        ∷ at_least "n_steps" 1
        ∷ positive "vf_lr"
        ∷ at_least "vf_epochs" 1
        ∷ [];
  }

  abbrev pub vpg_config : Schema F
  vpg_config = record {
    fields =
        ("learning_rate", number (F.ratio 3 10000))
        ∷ ("vf_lr", number (F.ratio 1 1000))
        ∷ ("n_envs", number (F.of_ℕ 8))
        ∷ ("n_steps", number (F.of_ℕ 2048))
        ∷ ("gamma", number (F.ratio 99 100))
        ∷ ("gae_lambda", number (F.ratio 97 100))
        ∷ ("vf_epochs", number (F.of_ℕ 5))
        ∷ ("max_grad_norm", number (F.ratio 5 10))
        ∷ ("ent_coef", number (F.ratio 0 10))
        ∷ ("hidden", number (F.of_ℕ 64))
        ∷ [];
    aliases = [];
    rules =
        positive "learning_rate"
        ∷ positive "vf_lr"
        ∷ at_least "n_envs" 1
        ∷ at_least "n_steps" 1
        ∷ at_least "vf_epochs" 1
        ∷ at_least "hidden" 1
        ∷ [];
  }

  abbrev pub mappo_config : Schema F
  mappo_config = record {
    fields =
        ("n_agents", number (F.of_ℕ 2))
        ∷ ("learning_rate", number (F.ratio 5 10000))
        ∷ ("n_steps", number (F.of_ℕ 128))
        ∷ ("n_epochs", number (F.of_ℕ 5))
        ∷ ("clip_range", number (F.ratio 2 10))
        ∷ ("gamma", number (F.ratio 99 100))
        ∷ ("gae_lambda", number (F.ratio 95 100))
        ∷ ("vf_coef", number (F.ratio 5 10))
        ∷ ("ent_coef", number (F.ratio 1 100))
        ∷ ("max_grad_norm", number (F.ratio 100 10))
        ∷ ("share_parameters", boolean false)
        ∷ ("hidden", number (F.of_ℕ 64))
        ∷ ("n_envs", number (F.of_ℕ 8))
        ∷ [];
    aliases = [];
    rules =
        positive "learning_rate"
        ∷ at_least "n_agents" 1
        ∷ at_least "n_steps" 1
        ∷ at_least "n_epochs" 1
        ∷ at_least "n_envs" 1
        ∷ [];
  }
