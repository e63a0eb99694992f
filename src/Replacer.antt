-- ===== src/Replacer.antt =====
-- The replacers of src/cpp/lib/replacer, which choose the frame to evict.
pub mod Sweep
pub mod SweepLaws
pub mod SweepTurns
pub mod Clock
pub mod ClockSweep
pub mod FrameList
pub mod Recency
pub mod Sequence
pub mod Batcher
pub mod Lru
pub mod Waiting
pub mod LruLaws
pub mod TwoQueue
pub mod Sieve
pub mod SieveTurns
pub mod SieveQueue
pub mod SieveLaws
pub mod TwoQueueLaws
mod Examples
mod ListExamples
