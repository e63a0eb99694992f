-- ===== src/Manager/Steps.antt =====
-- The operations of src/cpp/lib/buffer/buffer_manager*.cc on one frame as the steps of a pool, and what
-- every sequence of them keeps.
use tele_path.Prelude.{ℕ, ◌<◌, ◌≡◌, ◌≢◌, Bool, some}
use tele_path.Common.Types.{BufferTag}
use tele_path.Common.Status.{Status}
use tele_path.FrameControl.Fields.{view}
use tele_path.FrameControl.Ops
use tele_path.FrameControl.Ops.{DiscardOutcome}
use tele_path.FrameControl.Spec.{Op, Allowed}
use tele_path.FreeList.Ops as Free
use tele_path.Flush.Cleaner.{Cleaner}
use tele_path.Manager.Types.{Env, Manager, Task, word_of, outcome, on_word}
use tele_path.Manager.Frames.{
  try_pin_resident_frame, release_frame, release_shared_handle, release_exclusive_handle,
  mark_handle_dirty,
}
use tele_path.Manager.Flushing.{queue_writeback, roll_back_flush_task}
use tele_path.Manager.Writeback.{begin_flush_task, finalize_flush_task}
use tele_path.Manager.Reserve.{Reservation, abort_load_reservation, try_reserve_frame_for_tag}
use tele_path.Manager.Loading.{publish_loaded_frame}
use tele_path.Manager.Dropping.{finish_discard}
use tele_path.Manager.Accounting
use tele_path.Manager.Balance
use tele_path.Manager.Claims

module _ {Disk R : Type 0} (env : Env Disk R) where
  -- One operation of one thread on one frame of the pool. A caller that drops a pin or a latch holds
  -- it, and a load that is aborted has not been published.
  pub data Step : Manager Disk R → Manager Disk R → Type 0 where
    pin :
        (m m' : Manager Disk R) (f : ℕ) (tag : BufferTag) (record_access pinned : Bool)
        → f < env.pool_size
        → try_pin_resident_frame env f tag record_access m ≡ some (m', pinned)
        → Step m m'
    unpin : (m : Manager Disk R) (f : ℕ) → f < env.pool_size → Step m (release_frame env f m)
    unshare :
        (m : Manager Disk R) (f : ℕ)
        → f < env.pool_size
        → 0 < (view (word_of m f)).shared
        → Step m (release_shared_handle env f m)
    unlatch :
        (m : Manager Disk R) (f : ℕ) → f < env.pool_size → Step m (release_exclusive_handle env f m)
    mark :
        (m : Manager Disk R) (f lsn : ℕ)
        → f < env.pool_size
        → Step m (mark_handle_dirty env f lsn m)
    queue :
        (m : Manager Disk R) (f : ℕ) (cleaner_owned : Bool)
        → f < env.pool_size
        → Step m (queue_writeback env f cleaner_owned m)
    roll_back :
        (m : Manager Disk R) (f : ℕ) (cleaner_owned : Bool) (status : Status)
        → f < env.pool_size
        → Step m (roll_back_flush_task env f cleaner_owned status m)
    begin :
        (m : Manager Disk R) (task : Task)
        → task.flush.frame_id < env.pool_size
        → Step m (begin_flush_task env task m)
    finalize :
        (m : Manager Disk R) (task : Task) (status : Status)
        → task.flush.frame_id < env.pool_size
        → Step m (finalize_flush_task env task status m)
    reserve :
        (m : Manager Disk R) (f : ℕ) (tag : BufferTag) (allow_victim_flush from_free_list : Bool)
        → f < env.pool_size
        → Step m (try_reserve_frame_for_tag env f tag allow_victim_flush from_free_list m).0
    publish :
        (m : Manager Disk R) (tag : BufferTag) (r : Reservation) (read_from_disk release_pin : Bool)
        → r.frame_id < env.pool_size
        → Allowed (Op.publish_resident release_pin) (view (word_of m r.frame_id))
        → Step m (publish_loaded_frame env tag r read_from_disk release_pin m)
    abort :
        (m : Manager Disk R) (f : ℕ) (tag : BufferTag)
        → f < env.pool_size
        → (view (word_of m f)).state ≢ 2
        → Step m (abort_load_reservation env f tag m)
    discard :
        (m : Manager Disk R) (f : ℕ) (tag : BufferTag)
        → f < env.pool_size
        → (outcome (DiscardOutcome.busy, 0) f Ops.try_discard_pinned m).0 ≡ DiscardOutcome.discarded
        → Step m (
            finish_discard env f tag
              (outcome (DiscardOutcome.busy, 0) f Ops.try_discard_pinned m).1
              (on_word f Ops.try_discard_pinned m))

  pub data Reach (s : Manager Disk R) : Manager Disk R → Type 0 where
    here : Reach s s
    next : {t u : Manager Disk R} → Reach s t → Step t u → Reach s u
