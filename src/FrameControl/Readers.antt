-- ===== src/FrameControl/Readers.antt =====
-- The readers of the control word of src/cpp/lib/buffer/frame_control.h on the fields that a word
-- packs.
use tele_path.Prelude.{◌≡◌, ◌==◌, ◌||◌, bit_or, ap, arith}
use tele_path.FrameControl.Word.{
  BufferFrameState, free, loading, resident, state_code, state, with_state, pins, shared_holders,
  is_resident, is_dirty, has_writeback,
}
use tele_path.FrameControl.Fields.{Fields, Fits, pack}
use tele_path.Prelude.Bits.{or-and_add, and-ones, and-le}
use tele_path.FrameControl.Masks
use tele_path.FrameControl.Updates

with_state-pack :
    (f : Fields) (s : BufferFrameState)
    → Fits f
    → with_state (pack f) s ≡ pack (record f { state = state_code s })
unfolding with_state pack
with_state-pack f free h =
    let cleared = record f { state = 0 } in
    omega (
      arith,
      ap (λ w. bit_or w 0) (Updates.clear_state f h),
      or-and_add (pack cleared) 0,
      and-le (pack cleared) 0,
    )
with_state-pack f loading h =
    let cleared = record f { state = 0 } in
    omega (
      arith,
      ap (λ w. bit_or w 1) (Updates.clear_state f h),
      or-and_add (pack cleared) 1,
      and-ones 1 0 (pack cleared),
    )
with_state-pack f resident h = Updates.set_resident f h

-- On the word that packs fields of the right widths each reader gives its field, and WithState
-- changes the state alone.
pub readers-pack :
    (f : Fields) (s : BufferFrameState)
    → Fits f
    → (state (pack f) ≡ f.state)
      × (pins (pack f) ≡ f.pins)
      × (shared_holders (pack f) ≡ f.shared)
      × (is_resident (pack f) ≡ (f.state == 2))
      × (is_dirty (pack f) ≡ (f.dirty == 1))
      × (has_writeback (pack f) ≡ (f.queued == 1 || f.active == 1))
      × (with_state (pack f) s ≡ pack (record f { state = state_code s }))
unfolding state pins shared_holders is_resident is_dirty has_writeback
readers-pack f s h = (
  Masks.and_state f h,
  omega (arith, Masks.and_pins f h),
  omega (arith, Masks.and_shared f h),
  ground (arith, Masks.and_state f h),
  ground (arith, Masks.and_dirty f h),
  ground (arith, Masks.and_writeback f h),
  with_state-pack f s h,
)
