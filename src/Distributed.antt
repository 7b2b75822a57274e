-- ===== src/Distributed.antt =====
-- python/rlox/distributed/pipeline.py: the collector thread, its queue and the learner's calls.
pub mod Collection
pub mod Layout
pub mod Estimates
pub mod Rows
pub mod Threads
pub mod Fifo
pub mod Delivery
pub mod Shutdown
mod Tests
