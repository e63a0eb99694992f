-- ===== src/FrameControl/Masks.antt =====
-- What each mask of src/cpp/lib/buffer/frame_control.h reads, sets and clears in a packed word.
use tele_path.Prelude.{◌+◌, ◌*◌, ◌^◌, ◌≡◌, refl, bit_and, bit_or, arith}
use tele_path.Prelude.Bits.{and-ones, and-disjoint}
use tele_path.FrameControl.Word
use tele_path.FrameControl.Fields.{Fields, Fits, pack}

module _ (f : Fields) (h : Fits f) where
  pub and_state : bit_and (pack f) Word.state_mask ≡ f.state
  unfolding pack
  and_state = omega (arith, and-ones 2 0 (pack f))

  pub and_dirty : bit_and (pack f) Word.dirty ≡ f.dirty * 2 ^ 2
  unfolding pack
  and_dirty = omega (arith, and-ones 1 2 (pack f))

  pub and_queued : bit_and (pack f) Word.writeback_queued ≡ f.queued * 2 ^ 3
  unfolding pack
  and_queued = omega (arith, and-ones 1 3 (pack f))

  pub and_active : bit_and (pack f) Word.writeback_active ≡ f.active * 2 ^ 4
  unfolding pack
  and_active = omega (arith, and-ones 1 4 (pack f))

  pub and_redirtied : bit_and (pack f) Word.redirtied ≡ f.redirtied * 2 ^ 6
  unfolding pack
  and_redirtied = omega (arith, and-ones 1 6 (pack f))

  pub and_exclusive : bit_and (pack f) Word.exclusive ≡ f.exclusive * 2 ^ 7
  unfolding pack
  and_exclusive = omega (arith, and-ones 1 7 (pack f))

  pub and_shared : bit_and (pack f) Word.shared_mask ≡ f.shared * 2 ^ 8
  unfolding pack
  and_shared = omega (arith, and-ones 8 8 (pack f))

  pub and_waiters : bit_and (pack f) Word.waiters ≡ f.waiters * 2 ^ 16
  unfolding pack
  and_waiters = omega (arith, and-ones 1 16 (pack f))

  pub and_pins : bit_and (pack f) Word.pin_mask ≡ f.pins * 2 ^ 17
  unfolding pack
  and_pins = omega (arith, and-ones 15 17 (pack f))

  pub and_writeback : bit_and (pack f) Word.writeback_mask ≡ f.queued * 2 ^ 3 + f.active * 2 ^ 4
  unfolding pack
  and_writeback = omega (arith, and-ones 2 3 (pack f))

  pub and_latch : bit_and (pack f) Word.latch_mask ≡ f.exclusive * 2 ^ 7 + f.shared * 2 ^ 8
  unfolding pack
  and_latch = omega (arith, and-ones 9 7 (pack f))

  pub and_queued_redirtied :
      bit_and (pack f) (bit_or Word.writeback_queued Word.redirtied)
      ≡ f.queued * 2 ^ 3 + f.redirtied * 2 ^ 6
  and_queued_redirtied = omega (
    arith,
    and-disjoint (pack f) Word.writeback_queued Word.redirtied refl,
    and_queued,
    and_redirtied,
  )

  pub and_writeback_redirtied :
      bit_and (pack f) (bit_or Word.writeback_mask Word.redirtied)
      ≡ f.queued * 2 ^ 3 + f.active * 2 ^ 4 + f.redirtied * 2 ^ 6
  and_writeback_redirtied = omega (
    arith,
    and-disjoint (pack f) Word.writeback_mask Word.redirtied refl,
    and_writeback,
    and_redirtied,
  )

  pub and_redirtied_exclusive :
      bit_and (pack f) (bit_or Word.redirtied Word.exclusive)
      ≡ f.redirtied * 2 ^ 6 + f.exclusive * 2 ^ 7
  unfolding pack
  and_redirtied_exclusive = omega (arith, and-ones 2 6 (pack f))

  pub and_waiters_latch :
      bit_and (pack f) (bit_or Word.waiters Word.latch_mask)
      ≡ f.exclusive * 2 ^ 7 + f.shared * 2 ^ 8 + f.waiters * 2 ^ 16
  unfolding pack
  and_waiters_latch = omega (arith, and-ones 10 7 (pack f))

  pub and_latch_writeback :
      bit_and (pack f) (bit_or Word.latch_mask Word.writeback_mask)
      ≡ f.queued * 2 ^ 3 + f.active * 2 ^ 4 + f.exclusive * 2 ^ 7 + f.shared * 2 ^ 8
  and_latch_writeback = omega (
    arith,
    and-disjoint (pack f) Word.latch_mask Word.writeback_mask refl,
    and_latch,
    and_writeback,
  )
