-- ===== src/Config/Schemas.antt =====
-- python/rlox/config.py: the configuration classes, as schemas.
pub mod OnPolicy
pub mod OffPolicy
pub mod Models
pub mod Populations
use rlox.Base.{List, [], ◌∷◌}
use rlox.Base.Float.{Float}
use rlox.Config.Mixin.{Schema}
use rlox.Config.Schemas.OnPolicy.{
  ppo_config, a2c_config, impala_config, trpo_config, vpg_config, mappo_config,
}
use rlox.Config.Schemas.OffPolicy.{
  sac_config, td3_config, dqn_config, mpo_config, cross_q_config, pqn_config,
}
use rlox.Config.Schemas.Models.{
  dreamer_v3_config, decision_transformer_config, diffusion_policy_config, dtp_config,
  cal_ql_config, qmix_config,
}
use rlox.Config.Schemas.Populations.{pbt_config, self_play_config, go_explore_config}

module _ (F : Float) where
  -- Every class that inherits from `ConfigMixin`
  abbrev pub classes : List (Schema F)
  classes =
      ppo_config F
      ∷ sac_config F
      ∷ a2c_config F
      ∷ td3_config F
      ∷ dqn_config F
      ∷ mappo_config F
      ∷ dreamer_v3_config F
      ∷ impala_config F
      ∷ decision_transformer_config F
      ∷ qmix_config F
      ∷ cal_ql_config F
      ∷ pbt_config F
      ∷ trpo_config F
      ∷ vpg_config F
      ∷ diffusion_policy_config F
      ∷ self_play_config F
      ∷ go_explore_config F
      ∷ mpo_config F
      ∷ dtp_config F
      ∷ pqn_config F
      ∷ cross_q_config F
      ∷ []
