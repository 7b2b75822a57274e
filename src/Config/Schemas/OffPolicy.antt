-- ===== src/Config/Schemas/OffPolicy.antt =====
-- python/rlox/config.py: the classes of the off-policy algorithms.
use rlox.Base.{true, false, [], ◌∷◌}
use rlox.Base.Float.{Float}
use rlox.Config.Values.{
  positive, at_least, decreasing, in_unit_interval, two_betas, missing, boolean, number, tuple,
}
use rlox.Config.Mixin.{Schema}

module _ (F : Float) where
  abbrev pub sac_config : Schema F
  sac_config = record {
    fields =
        ("learning_rate", number (F.ratio 3 10000))
        ∷ ("buffer_size", number (F.of_ℕ 1000000))
        ∷ ("batch_size", number (F.of_ℕ 256))
        ∷ ("tau", number (F.ratio 5 1000))
        ∷ ("gamma", number (F.ratio 99 100))
        ∷ ("target_entropy", missing)
        ∷ ("auto_entropy", boolean true)
        ∷ ("learning_starts", number (F.of_ℕ 1000))
        ∷ ("hidden", number (F.of_ℕ 256))
        ∷ [];
    aliases = [];
    rules = positive "learning_rate" ∷ at_least "buffer_size" 1 ∷ at_least "batch_size" 1 ∷ [];
  }

  abbrev pub td3_config : Schema F
  td3_config = record {
    fields =
        ("learning_rate", number (F.ratio 3 10000))
        ∷ ("buffer_size", number (F.of_ℕ 1000000))
        ∷ ("batch_size", number (F.of_ℕ 256))
        ∷ ("tau", number (F.ratio 5 1000))
        ∷ ("gamma", number (F.ratio 99 100))
        ∷ ("learning_starts", number (F.of_ℕ 1000))
        ∷ ("policy_delay", number (F.of_ℕ 2))
        ∷ ("target_noise", number (F.ratio 2 10))
        ∷ ("noise_clip", number (F.ratio 5 10))
        ∷ ("exploration_noise", number (F.ratio 1 10))
        ∷ ("hidden", number (F.of_ℕ 256))
        ∷ ("n_envs", number (F.of_ℕ 1))
        ∷ [];
    aliases = [];
    rules =
        positive "learning_rate"
        ∷ at_least "buffer_size" 1
        ∷ at_least "batch_size" 1
        ∷ at_least "policy_delay" 1
        ∷ [];
  }

  abbrev pub dqn_config : Schema F
  dqn_config = record {
    fields =
        ("learning_rate", number (F.ratio 1 10000))
        ∷ ("buffer_size", number (F.of_ℕ 1000000))
        ∷ ("batch_size", number (F.of_ℕ 64))
        ∷ ("gamma", number (F.ratio 99 100))
        ∷ ("target_update_freq", number (F.of_ℕ 1000))
        ∷ ("exploration_fraction", number (F.ratio 1 10))
        ∷ ("exploration_initial_eps", number (F.ratio 10 10))
        ∷ ("exploration_final_eps", number (F.ratio 5 100))
        ∷ ("learning_starts", number (F.of_ℕ 1000))
        ∷ ("double_dqn", boolean true)
        ∷ ("dueling", boolean false)
        ∷ ("n_step", number (F.of_ℕ 1))
        ∷ ("prioritized", boolean false)
        ∷ ("alpha", number (F.ratio 6 10))
        ∷ ("beta_start", number (F.ratio 4 10))
        ∷ ("hidden", number (F.of_ℕ 256))
        ∷ ("train_freq", number (F.of_ℕ 1))
        ∷ ("gradient_steps", number (F.of_ℕ 1))
        ∷ ("max_grad_norm", number (F.sub (F.of_ℕ 0) F.neg_inf))
        ∷ [];
    aliases = [];
    rules =
        positive "learning_rate"
        ∷ at_least "buffer_size" 1
        ∷ at_least "batch_size" 1
        ∷ at_least "n_step" 1
        ∷ at_least "train_freq" 1
        ∷ at_least "gradient_steps" 1
        ∷ positive "max_grad_norm"
        ∷ [];
  }

  abbrev pub mpo_config : Schema F
  mpo_config = record {
    fields =
        ("learning_rate", number (F.ratio 3 10000))
        ∷ ("buffer_size", number (F.of_ℕ 1000000))
        ∷ ("batch_size", number (F.of_ℕ 256))
        ∷ ("gamma", number (F.ratio 99 100))
        ∷ ("tau", number (F.ratio 5 1000))
        ∷ ("n_action_samples", number (F.of_ℕ 20))
        ∷ ("epsilon", number (F.ratio 1 10))
        ∷ ("epsilon_penalty", number (F.ratio 1 1000))
        ∷ ("dual_lr", number (F.ratio 1 100))
        ∷ ("hidden", number (F.of_ℕ 256))
        ∷ ("learning_starts", number (F.of_ℕ 1000))
        ∷ [];
    aliases = [];
    rules =
        positive "learning_rate"
        ∷ at_least "buffer_size" 1
        ∷ at_least "batch_size" 1
        ∷ at_least "n_action_samples" 1
        ∷ positive "dual_lr"
        ∷ [];
  }

  abbrev pub cross_q_config : Schema F
  cross_q_config = record {
    fields =
        ("learning_rate", number (F.ratio 1 1000))
        ∷ ("adam_betas", tuple (F.ratio 5 10 ∷ F.ratio 999 1000 ∷ []))
        ∷ ("buffer_size", number (F.of_ℕ 1000000))
        ∷ ("batch_size", number (F.of_ℕ 256))
        ∷ ("gamma", number (F.ratio 99 100))
        ∷ ("target_entropy", missing)
        ∷ ("auto_entropy", boolean true)
        ∷ ("learning_starts", number (F.of_ℕ 1000))
        ∷ ("hidden", number (F.of_ℕ 256))
        ∷ ("policy_delay", number (F.of_ℕ 3))
        ∷ ("bn_momentum", number (F.ratio 1 100))
        ∷ ("bn_eps", number (F.ratio 1 1000))
        ∷ ("renorm_warmup_steps", number (F.of_ℕ 100000))
        ∷ [];
    aliases = [];
    rules =
        positive "learning_rate"
        ∷ at_least "buffer_size" 1
        ∷ at_least "batch_size" 1
        ∷ at_least "policy_delay" 1
        ∷ at_least "renorm_warmup_steps" 0
        ∷ two_betas "adam_betas"
        ∷ [];
  }

  abbrev pub pqn_config : Schema F
  pqn_config = record {
    fields =
        ("n_envs", number (F.of_ℕ 8))
        ∷ ("n_steps", number (F.of_ℕ 32))
        ∷ ("learning_rate", number (F.ratio 25 100000))
        ∷ ("gamma", number (F.ratio 99 100))
        ∷ ("q_lambda", number (F.ratio 65 100))
        ∷ ("num_epochs", number (F.of_ℕ 4))
        ∷ ("num_minibatches", number (F.of_ℕ 4))
        ∷ ("max_grad_norm", number (F.ratio 100 10))
        ∷ ("weight_decay", number (F.ratio 0 10))
        ∷ ("hidden", number (F.of_ℕ 128))
        ∷ ("eps_start", number (F.ratio 10 10))
        ∷ ("eps_end", number (F.ratio 5 100))
        ∷ ("exploration_fraction", number (F.ratio 5 10))
        ∷ [];
    aliases = [];
    rules =
        positive "learning_rate"
        ∷ at_least "n_envs" 1
        ∷ at_least "n_steps" 1
        ∷ at_least "num_epochs" 1
        ∷ at_least "num_minibatches" 1
        ∷ positive "max_grad_norm"
        ∷ at_least "hidden" 1
        ∷ decreasing "eps_start" "eps_end"
        ∷ in_unit_interval "exploration_fraction"
        ∷ [];
  }
