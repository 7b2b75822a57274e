-- ===== src/RloxVerify.antt =====
-- environments/rlox_verify/rlox_verify/__init__.py: the environment package.
pub mod Problems
pub mod Dataset
pub mod Environment
pub mod Loading
pub mod Scoring
mod Tests
