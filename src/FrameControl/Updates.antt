-- ===== src/FrameControl/Updates.antt =====
-- What setting and clearing a mask of src/cpp/lib/buffer/frame_control.h does to the fields.
use tele_path.Prelude.{ℕ, ◌+◌, ◌^◌, ◌<◌, ◌≡◌, ap, bit_and, bit_or, arith}
use tele_path.Prelude.Bits.{and-ones, and-complement, or-and_add}
use tele_path.FrameControl.Word
use tele_path.FrameControl.Fields.{Fields, Fits, pack, pack-lt}
use tele_path.FrameControl.Masks.{
  and_state, and_dirty, and_queued, and_active, and_redirtied, and_exclusive, and_waiters,
  and_queued_redirtied, and_writeback_redirtied, and_waiters_latch,
}

module _ (f : Fields) (h : Fits f) where
  clear_lem :
      (m : ℕ) → m < 2 ^ 32 → bit_and (pack f) (Word.complement m) + bit_and (pack f) m ≡ pack f
  clear_lem m = and-complement 32 (pack f) m (pack-lt f h)

  pub set_dirty : bit_or (pack f) Word.dirty ≡ pack (record f { dirty = 1 })
  unfolding pack
  set_dirty = omega (arith, or-and_add (pack f) Word.dirty, and_dirty f h)

  pub clear_dirty : bit_and (pack f) (Word.complement Word.dirty) ≡ pack (record f { dirty = 0 })
  unfolding pack
  clear_dirty = omega (arith, clear_lem Word.dirty (omega arith), and_dirty f h)

  pub set_queued : bit_or (pack f) Word.writeback_queued ≡ pack (record f { queued = 1 })
  unfolding pack
  set_queued = omega (arith, or-and_add (pack f) Word.writeback_queued, and_queued f h)

  pub clear_queued :
      bit_and (pack f) (Word.complement Word.writeback_queued) ≡ pack (record f { queued = 0 })
  unfolding pack
  clear_queued = omega (arith, clear_lem Word.writeback_queued (omega arith), and_queued f h)

  pub set_active : bit_or (pack f) Word.writeback_active ≡ pack (record f { active = 1 })
  unfolding pack
  set_active = omega (arith, or-and_add (pack f) Word.writeback_active, and_active f h)

  pub set_redirtied : bit_or (pack f) Word.redirtied ≡ pack (record f { redirtied = 1 })
  unfolding pack
  set_redirtied = omega (arith, or-and_add (pack f) Word.redirtied, and_redirtied f h)

  pub clear_redirtied :
      bit_and (pack f) (Word.complement Word.redirtied) ≡ pack (record f { redirtied = 0 })
  unfolding pack
  clear_redirtied = omega (arith, clear_lem Word.redirtied (omega arith), and_redirtied f h)

  pub set_exclusive : bit_or (pack f) Word.exclusive ≡ pack (record f { exclusive = 1 })
  unfolding pack
  set_exclusive = omega (arith, or-and_add (pack f) Word.exclusive, and_exclusive f h)

  pub clear_exclusive :
      bit_and (pack f) (Word.complement Word.exclusive) ≡ pack (record f { exclusive = 0 })
  unfolding pack
  clear_exclusive = omega (arith, clear_lem Word.exclusive (omega arith), and_exclusive f h)

  pub clear_waiters :
      bit_and (pack f) (Word.complement Word.waiters) ≡ pack (record f { waiters = 0 })
  unfolding pack
  clear_waiters = omega (arith, clear_lem Word.waiters (omega arith), and_waiters f h)

  pub set_waiters : bit_or (pack f) Word.waiters ≡ pack (record f { waiters = 1 })
  unfolding pack
  set_waiters = omega (arith, or-and_add (pack f) Word.waiters, and_waiters f h)

  -- Several fields at once.
  pub clear_queued_redirtied :
      bit_and (pack f) (Word.complement (bit_or Word.writeback_queued Word.redirtied))
      ≡ pack (record f { queued = 0; redirtied = 0 })
  unfolding pack
  clear_queued_redirtied = omega (
    arith,
    clear_lem (bit_or Word.writeback_queued Word.redirtied) (omega arith),
    and_queued_redirtied f h,
  )

  pub clear_writeback_redirtied :
      bit_and (pack f) (Word.complement (bit_or Word.writeback_mask Word.redirtied))
      ≡ pack (record f { queued = 0; active = 0; redirtied = 0 })
  unfolding pack
  clear_writeback_redirtied = omega (
    arith,
    clear_lem (bit_or Word.writeback_mask Word.redirtied) (omega arith),
    and_writeback_redirtied f h,
  )

  -- `(word & kWaiters) | kPinOne | kLoading`.
  pub claim_lem :
      bit_or (bit_or (bit_and (pack f) Word.waiters) Word.pin_one) 1
      ≡ pack (record {
        state = 1;
        dirty = 0;
        queued = 0;
        active = 0;
        prefetched = 0;
        redirtied = 0;
        exclusive = 0;
        shared = 0;
        waiters = f.waiters;
        pins = 1;
      })
  unfolding pack
  claim_lem =
      let kept = bit_and (pack f) Word.waiters in
      let pinned = bit_or kept Word.pin_one in
      omega (
        arith,
        and_waiters f h,
        or-and_add kept Word.pin_one,
        and-ones 1 17 kept,
        or-and_add pinned 1,
        and-ones 1 0 pinned,
      )

  -- `word & (kWaiters | kLatchMask)`.
  pub keep_waiters_latch :
      bit_and (pack f) (bit_or Word.waiters Word.latch_mask)
      ≡ pack (record {
        state = 0;
        dirty = 0;
        queued = 0;
        active = 0;
        prefetched = 0;
        redirtied = 0;
        exclusive = f.exclusive;
        shared = f.shared;
        waiters = f.waiters;
        pins = 0;
      })
  unfolding pack
  keep_waiters_latch = omega (arith, and_waiters_latch f h)

  pub clear_state :
      bit_and (pack f) (Word.complement Word.state_mask) ≡ pack (record f { state = 0 })
  unfolding pack
  clear_state = omega (arith, clear_lem Word.state_mask (omega arith), and_state f h)

pub set_resident :
    (f : Fields)
    → Fits f
    → bit_or (bit_and (pack f) (Word.complement Word.state_mask)) 2 ≡ pack (record f { state = 2 })
unfolding pack
set_resident f h =
    let cleared = record f { state = 0 } in
    omega (
      arith,
      ap (λ w. bit_or w 2) (clear_state f h),
      or-and_add (pack cleared) 2,
      and-ones 1 1 (pack cleared),
    )
