-- ===== src/Io.antt =====
-- src/cpp/lib/io: what the disk backends share.
pub mod FileDescriptors
pub mod Entries
pub mod Eviction
mod Examples
