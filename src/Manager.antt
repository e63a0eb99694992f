-- ===== src/Manager.antt =====
-- src/cpp/lib/buffer/buffer_manager*.cc: the buffer manager over its parts.
pub mod Types
pub mod Telemetry
pub mod Counts
pub mod Frames
pub mod Files
pub mod Flushing
pub mod Writeback
pub mod Rounds
pub mod Pool
pub mod Strategy
pub mod Reserve
pub mod Loading
pub mod Reading
pub mod Handles
pub mod Dropping
pub mod Closing
pub mod Words
pub mod RecLsn
pub mod DirtyWords
pub mod Dirty
pub mod Accounting
pub mod FileFrames
pub mod Balance
pub mod Claims
pub mod PinWords
pub mod Options
pub mod AsyncReads
pub mod Coalescing
pub mod FinishReads
pub mod Steps
pub mod Published
pub mod Loads
pub mod FlushWords
pub mod FlushRounds
pub mod Flushed
pub mod Eviction
mod Examples
