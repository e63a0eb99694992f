-- ===== src/FrameControl.antt =====
-- src/cpp/lib/buffer/frame_control.h: the 32-bit word through which all threads synchronise on a
-- frame. `Word` has the bits and their readers, `Ops` the loops that change the word.
pub mod Word
pub mod Ops
pub mod Fields
pub mod Masks
pub mod Updates
pub mod Spec
pub mod Refinement
pub mod System
pub mod Safety
pub mod Wakeups
pub mod Readers
pub mod Errors
mod Examples
