-- ===== src/Config/Schemas/Models.antt =====
-- python/rlox/config.py: the classes of the offline, model-based and multi-agent algorithms.
use rlox.Base.{false, [], ◌∷◌}
use rlox.Base.Float.{Float}
use rlox.Config.Values.{positive, at_least, one_of, missing, boolean, number, string}
use rlox.Config.Mixin.{Schema}

module _ (F : Float) where
  abbrev pub dreamer_v3_config : Schema F
  dreamer_v3_config = record {
    fields =
        ("learning_rate", number (F.ratio 1 10000))
        ∷ ("buffer_size", number (F.of_ℕ 1000000))
        ∷ ("batch_size", number (F.of_ℕ 16))
        ∷ ("seq_len", number (F.of_ℕ 50))
        ∷ ("gamma", number (F.ratio 997 1000))
        ∷ ("lambda_", number (F.ratio 95 100))
        ∷ ("deter_dim", number (F.of_ℕ 512))
        ∷ ("stoch_dim", number (F.of_ℕ 32))
        ∷ ("stoch_classes", number (F.of_ℕ 32))
        ∷ ("hidden", number (F.of_ℕ 512))
        ∷ ("imagination_horizon", number (F.of_ℕ 15))
        ∷ ("kl_balance", number (F.ratio 8 10))
        ∷ ("free_nats", number (F.ratio 10 10))
        ∷ [];
    aliases = [];
    rules =
        positive "learning_rate"
        ∷ at_least "buffer_size" 1
        ∷ at_least "batch_size" 1
        ∷ at_least "seq_len" 1
        ∷ at_least "deter_dim" 1
        ∷ at_least "stoch_dim" 1
        ∷ at_least "stoch_classes" 1
        ∷ at_least "imagination_horizon" 1
        ∷ [];
  }

  abbrev pub decision_transformer_config : Schema F
  decision_transformer_config = record {
    fields =
        ("context_length", number (F.of_ℕ 20))
        ∷ ("n_heads", number (F.of_ℕ 4))
        ∷ ("n_layers", number (F.of_ℕ 3))
        ∷ ("embed_dim", number (F.of_ℕ 128))
        ∷ ("learning_rate", number (F.ratio 1 10000))
        ∷ ("batch_size", number (F.of_ℕ 64))
        ∷ ("dropout", number (F.ratio 1 10))
        ∷ ("target_return", number (F.ratio 2000 10))
        ∷ ("warmup_steps", number (F.of_ℕ 500))
        ∷ [];
    aliases = [];
    rules =
        positive "learning_rate"
        ∷ at_least "context_length" 1
        ∷ at_least "n_heads" 1
        ∷ at_least "n_layers" 1
        ∷ at_least "embed_dim" 1
        ∷ at_least "batch_size" 1
        ∷ [];
  }

  abbrev pub diffusion_policy_config : Schema F
  diffusion_policy_config = record {
    fields =
        ("n_diffusion_steps", number (F.of_ℕ 50))
        ∷ ("action_horizon", number (F.of_ℕ 8))
        ∷ ("obs_horizon", number (F.of_ℕ 2))
        ∷ ("hidden_dim", number (F.of_ℕ 256))
        ∷ ("learning_rate", number (F.ratio 1 10000))
        ∷ ("batch_size", number (F.of_ℕ 256))
        ∷ ("noise_schedule", string "cosine")
        ∷ ("beta_start", number (F.ratio 1 10000))
        ∷ ("beta_end", number (F.ratio 2 100))
        ∷ ("buffer_size", number (F.of_ℕ 1000000))
        ∷ ("n_inference_steps", number (F.of_ℕ 10))
        ∷ [];
    aliases = [];
    rules =
        positive "learning_rate"
        ∷ at_least "n_diffusion_steps" 1
        ∷ at_least "action_horizon" 1
        ∷ at_least "obs_horizon" 1
        ∷ at_least "hidden_dim" 1
        ∷ at_least "batch_size" 1
        ∷ at_least "buffer_size" 1
        ∷ at_least "n_inference_steps" 1
        ∷ [];
  }

  abbrev pub dtp_config : Schema F
  dtp_config = record {
    fields =
        ("method", string "rwdtp")
        ∷ ("gamma", number (F.ratio 10 10))
        ∷ ("return_power", number (F.ratio 10 10))
        ∷ ("n_trees", number (F.of_ℕ 500))
        ∷ ("max_depth", number (F.of_ℕ 6))
        ∷ ("learning_rate_xgb", number (F.ratio 1 10))
        ∷ ("target_return", missing)
        ∷ ("subsample", number (F.ratio 10 10))
        ∷ ("colsample_bytree", number (F.ratio 10 10))
        ∷ ("reg_alpha", number (F.ratio 0 10))
        ∷ ("reg_lambda", number (F.ratio 10 10))
        ∷ [];
    aliases = [];
    rules =
        one_of "method" ("rwdtp" ∷ "rcdtp" ∷ [])
        ∷ at_least "n_trees" 1
        ∷ at_least "max_depth" 1
        ∷ positive "learning_rate_xgb"
        ∷ [];
  }

  abbrev pub cal_ql_config : Schema F
  cal_ql_config = record {
    fields =
        ("learning_rate", number (F.ratio 3 10000))
        ∷ ("buffer_size", number (F.of_ℕ 100000))
        ∷ ("batch_size", number (F.of_ℕ 256))
        ∷ ("gamma", number (F.ratio 99 100))
        ∷ ("tau", number (F.ratio 5 1000))
        ∷ ("cql_alpha", number (F.ratio 50 10))
        ∷ ("calibration_tau", number (F.ratio 5 10))
        ∷ ("auto_alpha", boolean false)
        ∷ [];
    aliases = [];
    rules = positive "learning_rate" ∷ at_least "buffer_size" 1 ∷ at_least "batch_size" 1 ∷ [];
  }

  abbrev pub qmix_config : Schema F
  qmix_config = record {
    fields =
        ("n_agents", number (F.of_ℕ 3))
        ∷ ("hidden_dim", number (F.of_ℕ 64))
        ∷ ("mixing_embed_dim", number (F.of_ℕ 32))
        ∷ ("lr", number (F.ratio 5 10000))
        ∷ ("buffer_size", number (F.of_ℕ 50000))
        ∷ ("gamma", number (F.ratio 99 100))
        ∷ ("target_update_freq", number (F.of_ℕ 200))
        ∷ ("batch_size", number (F.of_ℕ 32))
        ∷ [];
    aliases = [];
    rules =
        positive "lr"
        ∷ at_least "n_agents" 1
        ∷ at_least "hidden_dim" 1
        ∷ at_least "mixing_embed_dim" 1
        ∷ at_least "buffer_size" 1
        ∷ at_least "target_update_freq" 1
        ∷ at_least "batch_size" 1
        ∷ [];
  }
