-- ===== src/Flush.antt =====
-- src/cpp/lib/buffer/flush_scheduler.cc and cleaner_controller.cc: what is written back, and in which
-- order.
pub mod Scheduler
pub mod Fairness
pub mod Bursts
pub mod Cleaner
pub mod Candidates
mod Examples
