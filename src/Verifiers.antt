-- ===== src/Verifiers.antt =====
-- python/rlox_agent/verifiers_adapter.py: from a model's completion to a reward.
pub mod Messages
pub mod Extraction
pub mod Rewards
pub mod Scoring
mod Tests
