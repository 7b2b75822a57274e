-- ===== src/Callbacks.antt =====
-- python/rlox/callbacks.py: the callbacks of a training loop and the list that runs them.
mod Kwargs
pub mod EarlyStopping
pub mod Checkpoint
pub mod Timing
pub mod Evaluation
pub mod Chain
mod Tests
