-- ===== src/FrameControl/Refinement.antt =====
-- The operations of src/cpp/lib/buffer/frame_control.h against `Spec`: every mask, shift and sum on
-- the packed word does to the fields what the specification says, and to no other bit.
use tele_path.Prelude.{
  ℕ, ◌-◌, ◌<◌, ◌≡◌, Bool, true, false, Option, none, some, arith, ◌==◌, if◌then◌else◌, ◌&&◌,
}
use mathlib.Core.Option
use tele_path.FrameControl.Word
use tele_path.FrameControl.Masks
use tele_path.FrameControl.Updates
use tele_path.FrameControl.Fields.{Fields, Fits, pack}
use tele_path.FrameControl.Ops
use tele_path.FrameControl.Ops.{Attempt, leave, reload, swap}
use tele_path.FrameControl.Spec.{Op, transition, spec, Allowed, packed, written, waking}

-- The transition of `op` at the fields is the specification's.
abbrev pub Meets : Op → Fields → Type 0
Meets op f = transition op (pack f) ≡ Option.map packed (spec op f)

module _ (f : Fields) (h : Fits f) where
  waking_lem :
      (next : ℕ → ℕ) (g : Fields)
      → Fits g
      → next (pack f) ≡ pack g
      → written (Ops.update_and_wake next Ops.always (pack f)) ≡ some (packed (waking f g))
  unfolding Ops.update_and_wake
  waking_lem next g fits e =
      rw e (ground (arith, Masks.and_waiters f h, Updates.clear_waiters g fits))

  try_pin_resident-Meets : Meets Op.try_pin_resident f
  unfolding transition spec pack Ops.try_pin_resident
  try_pin_resident-Meets = ground (arith, Masks.and_state f h, Masks.and_pins f h)

  unpin-Meets : Meets Op.unpin f
  unfolding transition spec pack Ops.unpin
  unpin-Meets = ground (arith, Masks.and_pins f h)

  try_reserve-Meets : (popped : Bool) → Meets (Op.try_reserve popped) f
  unfolding transition spec Ops.try_reserve
  try_reserve-Meets popped = ground (
    arith,
    Masks.and_state f h,
    Masks.and_pins f h,
    Masks.and_dirty f h,
    Masks.and_latch_writeback f h,
    Updates.claim_lem f h,
  )

  published_lem :
      (release : Bool)
      → Allowed (Op.publish_resident release) f
      → Ops.published release (pack f)
        ≡ pack (record f { state = 2; pins = f.pins - (if release then 1 else 0) })
  unfolding Ops.published pack
  published_lem true a = omega (arith, Updates.set_resident f h)
  published_lem false a = omega (arith, Updates.set_resident f h)

  publish_resident-Meets :
      (release : Bool)
      → Allowed (Op.publish_resident release) f
      → Meets (Op.publish_resident release) f
  unfolding transition spec Ops.publish_resident
  publish_resident-Meets release a =
      waking_lem (Ops.published release) _ (ground arith) (published_lem release a)

  release_to_free-Meets : Meets Op.release_to_free f
  unfolding transition spec Ops.release_to_free Ops.freed
  release_to_free-Meets = waking_lem Ops.freed _ (omega arith) (Updates.keep_waiters_latch f h)

  try_discard_pinned-Meets : Meets Op.try_discard_pinned f
  unfolding transition spec Ops.try_discard_pinned pack
  try_discard_pinned-Meets = ground (
    arith,
    Masks.and_writeback f h,
    Masks.and_state f h,
    Masks.and_pins f h,
    Masks.and_latch f h,
    Masks.and_waiters f h,
  )

  mark_same :
      (m : ℕ)
      → (pack (record f { dirty = 1; redirtied = m }) == pack f)
        ≡ (f.dirty == 1 && m == f.redirtied)
  unfolding pack
  mark_same m = ground arith

  mark_dirty-Meets : Meets Op.mark_dirty f
  unfolding transition spec Ops.mark_dirty
  mark_dirty-Meets = ground (
    arith,
    Masks.and_writeback f h,
    Masks.and_state f h,
    Updates.set_dirty f h,
    Updates.set_redirtied (record f { dirty = 1 }) (omega arith),
    mark_same 1,
    mark_same f.redirtied,
  )

  try_acquire_shared-Meets : Meets Op.try_acquire_shared f
  unfolding transition spec Ops.try_acquire_shared pack
  try_acquire_shared-Meets = ground (arith, Masks.and_exclusive f h, Masks.and_shared f h)

  try_acquire_exclusive-Meets : Meets Op.try_acquire_exclusive f
  unfolding transition spec Ops.try_acquire_exclusive
  try_acquire_exclusive-Meets = ground (arith, Masks.and_latch f h, Updates.set_exclusive f h)

  try_queue_writeback-Meets : (skip : Bool) → Meets (Op.try_queue_writeback skip) f
  unfolding transition spec Ops.try_queue_writeback
  try_queue_writeback-Meets skip = ground (
    arith,
    Masks.and_writeback f h,
    Masks.and_state f h,
    Masks.and_dirty f h,
    Masks.and_pins f h,
    Updates.set_queued f h,
    Updates.clear_redirtied (record f { queued = 1 }) (omega arith),
  )

  begin_writeback-Meets : Meets Op.begin_writeback f
  unfolding transition spec Ops.begin_writeback
  begin_writeback-Meets =
      ground (
        arith,
        Updates.clear_queued f h,
        Updates.set_active (record f { queued = 0 }) (omega arith),
      )

  cancel_queued_writeback-Meets : Meets Op.cancel_queued_writeback f
  unfolding transition spec Ops.cancel_queued_writeback Ops.cancelled
  cancel_queued_writeback-Meets =
      waking_lem Ops.cancelled _ (omega arith) (Updates.clear_queued_redirtied f h)

  announce-Meets : Meets Op.announce f
  unfolding transition spec Ops.wait_while
  announce-Meets = ground (arith, Masks.and_waiters f h, Updates.set_waiters f h)

  shared_one_less :
      0 < f.shared → Word.sub32 (pack f) Word.shared_one ≡ pack (record f { shared = f.shared - 1 })
  unfolding pack
  shared_one_less a = omega arith

  release_shared-Meets : Allowed Op.release_shared f → Meets Op.release_shared f
  unfolding transition spec Ops.release_shared
  release_shared-Meets a =
      let g = record f { shared = f.shared - 1 } in
      let fits : Fits g = omega arith in
      ground (
        arith,
        shared_one_less a,
        Masks.and_shared f h,
        Masks.and_shared g fits,
        Masks.and_waiters f h,
        Updates.clear_waiters g fits,
      )

  release_exclusive-Meets : Meets Op.release_exclusive f
  unfolding transition spec Ops.release_exclusive Ops.unlatched_word
  release_exclusive-Meets = waking_lem Ops.unlatched_word _ (ground arith) (
      ground (
        arith,
        Masks.and_writeback f h,
        Updates.clear_exclusive f h,
        Updates.set_redirtied (record f { exclusive = 0 }) (omega arith),
      ))

  complete_writeback-Meets : (succeeded : Bool) → Meets (Op.complete_writeback succeeded) f
  unfolding transition spec Ops.complete_writeback_word Ops.completed
  complete_writeback-Meets succeeded = waking_lem (Ops.completed succeeded) _ (ground arith) (
      ground (
        arith,
        Masks.and_state f h,
        Masks.and_dirty f h,
        Masks.and_redirtied_exclusive f h,
        Updates.clear_writeback_redirtied f h,
        Updates.clear_dirty (record f { queued = 0; active = 0; redirtied = 0 }) (omega arith),
      ))

-- On the word that packs fields of the right widths, and where a caller that drops a pin or a shared
-- latch holds one, each operation writes exactly when the specification on the fields gives a
-- result; it writes the word that packs that result, and wakes exactly when the specification does.
pub transition-spec :
    (op : Op) (f : Fields)
    → Fits f
    → Allowed op f
    → transition op (pack f) ≡ Option.map packed (spec op f)
transition-spec Op.try_pin_resident f h a = try_pin_resident-Meets f h
transition-spec Op.unpin f h a = unpin-Meets f h
transition-spec (Op.try_reserve popped) f h a = try_reserve-Meets f h popped
transition-spec (Op.publish_resident release) f h a = publish_resident-Meets f h release a
transition-spec Op.release_to_free f h a = release_to_free-Meets f h
transition-spec Op.try_discard_pinned f h a = try_discard_pinned-Meets f h
transition-spec Op.mark_dirty f h a = mark_dirty-Meets f h
transition-spec Op.try_acquire_shared f h a = try_acquire_shared-Meets f h
transition-spec Op.release_shared f h a = release_shared-Meets f h a
transition-spec Op.try_acquire_exclusive f h a = try_acquire_exclusive-Meets f h
transition-spec Op.release_exclusive f h a = release_exclusive-Meets f h
transition-spec (Op.try_queue_writeback skip) f h a = try_queue_writeback-Meets f h skip
transition-spec Op.begin_writeback f h a = begin_writeback-Meets f h
transition-spec Op.cancel_queued_writeback f h a = cancel_queued_writeback-Meets f h
transition-spec (Op.complete_writeback succeeded) f h a = complete_writeback-Meets f h succeeded
transition-spec Op.announce f h a = announce-Meets f h

-- The fields that a transition leaves are the specification's.
pub fields_after :
    (op : Op) (f : Fields) (w : ℕ) (wake : Bool) (r : Option (Fields × Bool))
    → Option.map packed r ≡ some (w, wake)
    → (f' : Fields) × (r ≡ some (f', wake)) × (w ≡ pack f')
fields_after op f w wake none e = cc
fields_after op f w wake (some (f', b)) e = (f', ground arith, ground arith)
