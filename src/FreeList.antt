-- ===== src/FreeList.antt =====
-- src/cpp/lib/buffer/frame_free_list.h: the lock-free stack of the frames without a page.
pub mod Ops
pub mod System
pub mod Invariant
pub mod Steps
pub mod Safety
mod Examples
