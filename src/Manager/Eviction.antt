-- ===== src/Manager/Eviction.antt =====
-- FrameEvictionProbe of src/cpp/lib/buffer/buffer_manager_eviction.cc against TryReserve of frame_control.h:
-- what a replacer is told and what can then be claimed.
use tele_path.Prelude.{
  ℕ, ◌<◌, ◌≡◌, refl, Bool, true, false, not, ◌==◌, ◌||◌, bit_or, bit_and, leb, if◌then◌else◌, arith,
}
use tele_path.FrameControl.Word
use tele_path.FrameControl.Ops
use tele_path.FrameControl.Ops.{Attempt, leave, reload, swap, ReserveOutcome}
use tele_path.Manager.Types.{Env, Manager, word_of, outcome, returned}
use tele_path.Manager.Words.{readers-view}
use tele_path.Manager.Reserve.{is_evictable}

reserve_tests :
    (w : ℕ) (idle latched dirty : Bool)
    → (returned {A = ReserveOutcome × ℕ}
        (ReserveOutcome.rejected, 0)
        (if not idle || latched
          then leave (ReserveOutcome.rejected, w)
          else if dirty
          then leave (ReserveOutcome.needs_flush, w)
          else swap
              (bit_or (bit_or (bit_and w Word.waiters) Word.pin_one) 1)
              false
              (ReserveOutcome.reserved, w))).0
      ≡ (if (if not idle then false else not latched)
          then (if dirty then ReserveOutcome.needs_flush else ReserveOutcome.reserved)
          else ReserveOutcome.rejected)
reserve_tests w true true dirty = refl
reserve_tests w true false true = refl
reserve_tests w true false false = refl
reserve_tests w false true dirty = refl
reserve_tests w false false dirty = refl

-- On a frame of the pool whose 32-bit word says resident, TryReserve, of a frame that was not popped from
-- the free list, refuses exactly the frames that the probe calls not evictable; of the others it
-- reserves the clean ones, and asks for a flush of the dirty ones.
pub try_reserve-is_evictable :
    {Disk R : Type 0} (env : Env Disk R) (m : Manager Disk R) (f : ℕ)
    → f < env.pool_size
    → Word.is_resident (word_of m f) ≡ true
    → word_of m f < Word.word_mod
    → (outcome (ReserveOutcome.rejected, 0) f (Ops.try_reserve false) m).0 ≡ (
        if is_evictable env m f
        then (if Word.is_dirty (word_of m f)
            then ReserveOutcome.needs_flush
            else ReserveOutcome.reserved)
        else ReserveOutcome.rejected)
unfolding is_evictable Ops.try_reserve
try_reserve-is_evictable env m f low resident small =
    let w = word_of m f in
    let (state, pins, is_in, dirty, writing) = readers-view w small in
    let is_two : Word.state w ≡ 2 = ground arith in
    let inside : leb env.pool_size f ≡ false = ground arith in
    rw (inside, is_two)
      (reserve_tests w (Word.pins w == 0)
        (Word.has_any w (bit_or Word.latch_mask Word.writeback_mask)) (Word.is_dirty w))
