-- ===== src/FrameControl/Examples.antt =====
-- Runs of the frame control word, and the theorems about it at concrete words.
use tele_path.Prelude.{◌<◌, ◌^◌, ◌↔◌, ◌≤◌, ◌≡◌, ◌⊎◌, inr, refl, true, false, some, arith}
use tele_path.FrameControl.Word.{
  pins, shared_holders, max_pins, max_shared, is_resident, is_dirty, state,
}
use tele_path.FrameControl.Fields.{Fields, pack, view}
use tele_path.FrameControl.Ops
use tele_path.FrameControl.Spec.{Op, transition, no_fields}
use tele_path.FrameControl.Refinement.{Meets, transition-spec}
use tele_path.FrameControl.System.{Frame, Reach, here, next, operate, modify, fresh, effect}
use tele_path.FrameControl.Safety.{Reach-counts, Reach-clean, try_reserve-Reach}
use tele_path.FrameControl.Wakeups.{for_exclusive, transition-wakes}
use tele_path.FrameControl.Fields.{pack-view}
use tele_path.Common.Status.{ErrorCode, Status, ok, error}
use tele_path.FrameControl.Errors.{
  pack_writeback_error, unpack_writeback_error, as_writeback_error, unpack-pack,
}

-- What the operations compute with.
program : Unit {0}
unfolding transition Ops.try_pin_resident Ops.unpin Ops.try_reserve Ops.publish_resident
    Ops.published Ops.release_to_free Ops.freed Ops.try_discard_pinned Ops.mark_dirty
    Ops.try_acquire_shared Ops.release_shared Ops.try_acquire_exclusive Ops.release_exclusive
    Ops.unlatched_word Ops.try_queue_writeback Ops.begin_writeback Ops.cancel_queued_writeback
    Ops.cancelled Ops.complete_writeback_word Ops.completed Ops.wait_while Ops.update_and_wake
    is_resident is_dirty state view
program = tt

-- A frame that was loaded and is pinned once: state 2, one pin.
loaded_word : transition (Op.publish_resident false) 0x20001 ≡ some (0x20002, false)
unfolding program
loaded_word = refl

layout : pack (view 0x21284) ≡ 0x21284
layout = pack-view 0x21284 (omega arith)

abbrev shared_frame : Fields
shared_frame = record no_fields { state = 2; shared = 1; waiters = 1; pins = 1 }

transition-spec_example : Meets Op.release_shared shared_frame
transition-spec_example = transition-spec Op.release_shared shared_frame (omega arith) (omega arith)

-- The last reader of a frame leaves, and a thread waits for the exclusive latch.
transition-wakes_example : true ≡ true
unfolding program
transition-wakes_example =
    transition-wakes Op.release_shared for_exclusive {w = 0x30102} {w' = 0x20002} {wake = true}
      (omega arith) (omega arith) refl refl (inr refl)

-- A page is loaded, changed under the exclusive latch, written back and released.
abbrev run_1 : Frame
run_1 = record { word = 0x20001; ghost = effect (Op.try_reserve true) 0 ((fresh 7).ghost) }

abbrev run_2 : Frame
run_2 = record { word = 0x20002; ghost = effect (Op.publish_resident false) 0 (run_1.ghost) }

abbrev run_3 : Frame
run_3 = record { word = 0x20082; ghost = effect Op.try_acquire_exclusive 0 (run_2.ghost) }

abbrev run_4 : Frame
run_4 = record run_3 { ghost = record (run_3.ghost) { page = 9; touched = 1 } }

abbrev run_5 : Frame
run_5 = record { word = 0x20086; ghost = effect Op.mark_dirty 0 (run_4.ghost) }

abbrev run_6 : Frame
run_6 = record { word = 0x20006; ghost = effect Op.release_exclusive 0 (run_5.ghost) }

abbrev run_7 : Frame
run_7 = record { word = 0x20106; ghost = effect Op.try_acquire_shared 0 (run_6.ghost) }

abbrev run_8 : Frame
run_8 = record { word = 0x2010e; ghost = effect (Op.try_queue_writeback false) 0 (run_7.ghost) }

abbrev run_9 : Frame
run_9 = record { word = 0x2000e; ghost = effect Op.release_shared 0 (run_8.ghost) }

abbrev run_10 : Frame
run_10 = record { word = 0x20016; ghost = effect Op.begin_writeback 0 (run_9.ghost) }

abbrev run_11 : Frame
run_11 = record { word = 0x20002; ghost = effect (Op.complete_writeback true) 0 (run_10.ghost) }

abbrev run_12 : Frame
run_12 = record { word = 0x2; ghost = effect Op.unpin 0 (run_11.ghost) }

run_1-Reach : Reach (fresh 7) run_1
unfolding program
run_1-Reach = next here (operate (Op.try_reserve true) 0 0x20001 false tt refl refl)

run_2-Reach : Reach (fresh 7) run_2
unfolding program
run_2-Reach = next run_1-Reach (operate (Op.publish_resident false) 0 0x20002 false refl refl refl)

run_3-Reach : Reach (fresh 7) run_3
unfolding program
run_3-Reach =
    next run_2-Reach (operate Op.try_acquire_exclusive 0 0x20082 false (omega arith) refl refl)

run_4-Reach : Reach (fresh 7) run_4
unfolding program
run_4-Reach = next run_3-Reach (modify 9 (omega arith) refl)

run_5-Reach : Reach (fresh 7) run_5
unfolding program
run_5-Reach = next run_4-Reach (operate Op.mark_dirty 0 0x20086 false (omega arith) refl refl)

run_6-Reach : Reach (fresh 7) run_6
unfolding program
run_6-Reach =
    next run_5-Reach (operate Op.release_exclusive 0 0x20006 false (omega arith) refl refl)

run_7-Reach : Reach (fresh 7) run_7
unfolding program
run_7-Reach = next run_6-Reach (operate Op.try_acquire_shared 0 0x20106 false tt refl refl)

run_8-Reach : Reach (fresh 7) run_8
unfolding program
run_8-Reach =
    next run_7-Reach
      (operate (Op.try_queue_writeback false) 0 0x2010e false (omega arith) refl refl)

run_9-Reach : Reach (fresh 7) run_9
unfolding program
run_9-Reach = next run_8-Reach (operate Op.release_shared 0 0x2000e false (omega arith) refl refl)

run_10-Reach : Reach (fresh 7) run_10
unfolding program
run_10-Reach = next run_9-Reach (operate Op.begin_writeback 0 0x20016 false refl refl refl)

run_11-Reach : Reach (fresh 7) run_11
unfolding program
run_11-Reach =
    next run_10-Reach (operate (Op.complete_writeback true) 0 0x20002 false refl refl refl)

run_12-Reach : Reach (fresh 7) run_12
unfolding program
run_12-Reach = next run_11-Reach (operate Op.unpin 0 0x2 false (omega arith) refl refl)

Reach-counts_example :
    (pins 0x2 ≡ 0)
    × (shared_holders 0x2 ≡ 0)
    × (0 ≤ max_pins)
    × (0 ≤ max_shared)
    × (0 ≤ 1)
    × ((run_12.ghost.writers ≡ 0) ⊎ (run_12.ghost.readers ≡ 0))
Reach-counts_example = Reach-counts run_12-Reach

Reach-clean_example : run_12.ghost.page ≡ run_12.ghost.disk
unfolding program
Reach-clean_example = Reach-clean run_12-Reach refl refl refl

try_reserve-Reach_example :
    (run_12.ghost.pinners ≡ 0)
    × (run_12.ghost.loaders ≡ 0)
    × (run_12.ghost.readers ≡ 0)
    × (run_12.ghost.writers ≡ 0)
    × (run_12.ghost.queued_tasks ≡ 0)
    × (run_12.ghost.active_tasks ≡ 0)
    × (is_resident 0x2 ≡ true → run_12.ghost.page ≡ run_12.ghost.disk)
unfolding program
try_reserve-Reach_example = try_reserve-Reach run_12-Reach false {w = 0x20001} {wake = false} refl

abbrev disk_full : Status
disk_full = error (record { code = ErrorCode.io_error; message = "write"; system_error = 28 })

unpack-pack_example :
    (unpack_writeback_error (pack_writeback_error disk_full) ≡ some (as_writeback_error disk_full))
    × (pack_writeback_error disk_full < 2 ^ 32)
    × ((pack_writeback_error disk_full ≡ 0) ↔ (disk_full ≡ ok))
unpack-pack_example = unpack-pack disk_full
