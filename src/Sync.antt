-- ===== src/Sync.antt =====
-- src/cpp/lib/sync: the mutex on a futex word.
pub mod Mutex
pub mod Invariant
pub mod Safety
mod Examples
