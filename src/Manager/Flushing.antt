-- ===== src/Manager/Flushing.antt =====
-- src/cpp/lib/buffer/buffer_manager_flush.cc. A flush worker serves a task as soon as it is enqueued,
-- so a writeback is pending only inside one call.
use tele_path.Prelude.{
  ℕ, zero, suc, Bool, true, false, ◌&&◌, Option, none, some, leb, if◌then◌else◌,
}
use tele_path.Common.Types.{BufferTag, invalid_lsn}
use tele_path.Common.Status.{Status, ok, error}
use tele_path.Common.Results.{Result, value, failure, invalid_argument}
use tele_path.FrameControl.Word.{has_writeback}
use tele_path.FrameControl.Errors.{lowered, pack_writeback_error, unpack_writeback_error}
use tele_path.FrameControl.Ops
use tele_path.FrameControl.Ops.{queued, not_dirty, pending, pinned}
use tele_path.Flush.Cleaner
use tele_path.Manager.Types.{
  Page, Event, Env, Task, Manager, Call, Descriptor, operate, change_descriptor, word_of, on_word,
  outcome, observe, wait_while, update, pure, ◌>>=◌, ◌>>◌,
}
use tele_path.Manager.Frames.{load_tag, in_cleaner, acquire_shared}

-- What PrepareFlushTask leaves: a queued writeback with the page's tag and copy, or nothing to
-- write, with what `*was_busy` receives.
pub data Prepared : Type 0 where
  ready : BufferTag → Page → Prepared
  nothing : Bool → Prepared

-- A task, or the null pointer with what `*was_busy` receives.
pub data Created : Type 0 where
  created : Task → Created
  skipped : Bool → Created

abbrev pub succeeded : Status → Bool
succeeded ok = true
succeeded (error e) = false

-- What PrepareFlushTask stores once the writeback is queued.
unfoldable pub queued_descriptor : Descriptor → Descriptor
queued_descriptor d = record d {
  last_writeback_error = 0;
  writeback_rec_lsn = d.rec_lsn;
  rec_lsn = invalid_lsn;
}

-- What a writeback that failed, or that is rolled back, stores.
unfoldable pub failed_descriptor : Status → Descriptor → Descriptor
failed_descriptor status d = record d {
  last_writeback_error = pack_writeback_error status;
  rec_lsn = lowered d.writeback_rec_lsn d.rec_lsn;
}

-- Alone, a wait that has to wait does not return, so no second round begins.
abbrev pub prepare_rounds : ℕ
prepare_rounds = 2

module _ {Disk R : Type 0} (env : Env Disk R) where
  unfoldable pub capture_flush_snapshot : ℕ → Option Page → Manager Disk R → Page
  capture_flush_snapshot frame stable_data m = elim stable_data [
    | some page ↦ page
    | none ↦ m.frames frame
  ]

  -- A word that packs no error code does not occur.
  unfoldable pub wait_for_pending_flush : ℕ → Call Disk R Status
  wait_for_pending_flush frame = do
    wait_while (λ m. has_writeback (word_of m frame))
    λ m. elim (unpack_writeback_error ((m.descriptors frame).last_writeback_error)) [
      | none ↦ none
      | some status ↦ some (m, status)
    ]

  unfoldable pub queue_writeback : ℕ → Bool → Manager Disk R → Manager Disk R
  queue_writeback frame cleaner_owned =
      change_descriptor frame
        (λ d. queued_descriptor (operate (Ops.try_queue_writeback cleaner_owned) d))

  abbrev pub is_null : Option Page → Bool
  is_null none = true
  is_null (some page) = false

  -- The loop of PrepareFlushTask. The fuel bounds its rounds.
  unfoldable pub prepare_from : ℕ → ℕ → Option Page → Bool → Bool → Call Disk R (Result Prepared)
  unfolding queue_writeback capture_flush_snapshot wait_for_pending_flush
  prepare_from zero frame stable_data opportunistic cleaner_owned m = none
  prepare_from (suc fuel) frame stable_data opportunistic cleaner_owned m =
      let again = prepare_from fuel frame stable_data opportunistic cleaner_owned in
      let claimed = queue_writeback frame cleaner_owned m in
      let copy = capture_flush_snapshot frame stable_data claimed in
      elim (outcome pending frame (Ops.try_queue_writeback cleaner_owned) m) [
        | queued ↦ some (claimed, value (ready (load_tag env claimed frame) copy))
        | not_dirty ↦ some (m, value (nothing false))
        | pinned ↦ some (m, value (nothing true))
        | pending ↦ elim (is_null stable_data && opportunistic) [
          | true ↦ some (m, value (nothing true))
          | false ↦
              (do
                status ← wait_for_pending_flush frame
                elim status [ ok ↦ again | error e ↦ pure (failure e) ])
                m
        ]
      ]

  unfoldable pub prepare_latched : ℕ → Bool → Bool → Call Disk R (Result Prepared)
  unfolding prepare_from
  prepare_latched frame opportunistic cleaner_owned = do
    result ← prepare_from prepare_rounds frame none opportunistic cleaner_owned
    update (on_word frame Ops.release_shared)
    pure result

  unfoldable pub prepare_flush_task : ℕ → Option Page → Bool → Bool → Call Disk R (Result Prepared)
  unfolding prepare_from prepare_latched acquire_shared
  prepare_flush_task frame (some page) opportunistic cleaner_owned m =
      prepare_from prepare_rounds frame (some page) opportunistic cleaner_owned m
  prepare_flush_task frame none false cleaner_owned m =
      (do acquire_shared env frame; prepare_latched frame false cleaner_owned) m
  prepare_flush_task frame none true cleaner_owned m =
      elim (outcome false frame Ops.try_acquire_shared m) [
        | true ↦ prepare_latched frame true cleaner_owned (on_word frame Ops.try_acquire_shared m)
        | false ↦ some (m, value (nothing true))
      ]

  unfoldable pub roll_back_flush_task : ℕ → Bool → Status → Manager Disk R → Manager Disk R
  roll_back_flush_task frame cleaner_owned status m =
      let counted = in_cleaner env cleaner_owned Cleaner.on_flush_finished m in
      let cancelled =
        change_descriptor frame
          (λ d. operate Ops.cancel_queued_writeback (failed_descriptor status d)) counted in
      observe (Event.flush_task_completion (load_tag env cancelled frame) status) cancelled

  abbrev pub hook_status : BufferTag → Page → Status
  hook_status tag page = elim (env.pre_write_hook) [ none ↦ ok | some hook ↦ hook tag page ]

  abbrev pub new_task : ℕ → Bool → BufferTag → Page → Task
  new_task frame cleaner_owned tag snapshot = record {
    flush = record {
      frame_id = frame;
      tag = tag;
      clear_dirty_on_success = true;
      cleaner_owned = cleaner_owned;
    };
    snapshot = snapshot;
  }

  unfoldable pub task_from : ℕ → Bool → Result Prepared → Call Disk R (Result Created)
  unfolding roll_back_flush_task
  task_from frame cleaner_owned (failure e) m = some (m, failure e)
  task_from frame cleaner_owned (value (nothing busy)) m = some (m, value (skipped busy))
  task_from frame cleaner_owned (value (ready tag snapshot)) m = elim (hook_status tag snapshot) [
    | ok ↦ some (m, value (created (new_task frame cleaner_owned tag snapshot)))
    | error e ↦ some (roll_back_flush_task frame cleaner_owned (error e) m, failure e)
  ]

  unfoldable pub create_flush_task : ℕ → Option Page → Bool → Bool → Call Disk R (Result Created)
  unfolding prepare_flush_task task_from
  create_flush_task frame stable_data opportunistic cleaner_owned =
      if leb env.pool_size frame then pure (failure (invalid_argument "invalid frame id")) else (do
        prepared ← prepare_flush_task frame stable_data opportunistic cleaner_owned
        task_from frame cleaner_owned prepared)
