-- ===== src/Manager/Writeback.antt =====
-- src/cpp/lib/buffer/buffer_manager_flush.cc: how a flush task is written and finished, by its caller
-- or by a worker.
use tele_path.Prelude.{
  ℕ, ◌-◌, ◌%◌, ◌+◌, ◌^◌, Bool, true, false, ◌&&◌, Option, none, some, List, [], ◌∷◌, if◌then◌else◌,
}
use tele_path.Common.Types.{invalid_lsn}
use tele_path.Common.Status.{Status, ok, error}
use tele_path.Common.Results.{Result, value, failure, unavailable}
use tele_path.FrameControl.Errors.{pack_writeback_error}
use tele_path.FrameControl.Ops
use tele_path.Flush.Cleaner
use tele_path.Manager.Types.{
  Event, Env, Task, Manager, Descriptor, operate, change_descriptor, word_of, on_word, observe,
}
use tele_path.Manager.Frames.{
  in_cleaner, reset_cleaner_candidate, should_queue_cleaner_candidate,
  maybe_enqueue_cleaner_candidate,
}
use tele_path.Manager.Files.{record_written_file, sync_files}
use tele_path.Manager.Flushing.{succeeded, failed_descriptor}

-- The error word, the LSNs and the control word of a frame once its write has ended.
unfoldable pub completed_descriptor : Status → Descriptor → Descriptor
unfolding failed_descriptor
completed_descriptor ok d =
    operate (Ops.complete_writeback_word true)
      (record d { last_writeback_error = pack_writeback_error ok; writeback_rec_lsn = invalid_lsn })
completed_descriptor (error e) d =
    operate (Ops.complete_writeback_word false) (failed_descriptor (error e) d)

abbrev pub has_cleaner : Option Cleaner.Cleaner → Bool
has_cleaner none = false
has_cleaner (some c) = true

module _ {Disk R : Type 0} (env : Env Disk R) where
  unfoldable pub begin_flush_task : Task → Manager Disk R → Manager Disk R
  begin_flush_task task m =
      if task.flush.clear_dirty_on_success
      then on_word task.flush.frame_id Ops.begin_writeback m
      else m

  -- The block of FinalizeFlushTask on a task that clears the dirty bit.
  unfoldable pub complete_flush : ℕ → Status → Manager Disk R → Manager Disk R
  unfolding completed_descriptor should_queue_cleaner_candidate maybe_enqueue_cleaner_candidate
      reset_cleaner_candidate
  complete_flush frame status m =
      let completion = Ops.writeback_completion (succeeded status) (word_of m frame) in
      let counted = record (change_descriptor frame (completed_descriptor status) m) {
        dirty_page_count =
            if completion.cleared_dirty
            then (m.dirty_page_count + (2 ^ 64 - 1)) % 2 ^ 64
            else m.dirty_page_count;
      } in
      record counted {
        cleaner =
            if should_queue_cleaner_candidate completion.word
            then (maybe_enqueue_cleaner_candidate env frame counted).cleaner
            else if completion.cleared_dirty
            then (reset_cleaner_candidate env frame counted).cleaner
            else counted.cleaner;
      }

  -- A write that is done is remembered for the next sync, or synced now where there is no room.
  unfoldable pub note_flushed : Task → Manager Disk R → Manager Disk R
  unfolding record_written_file sync_files
  note_flushed task m =
      let file = task.flush.tag.file_id in
      let (noted, recorded) = record_written_file env file m in
      observe (Event.successful_flush task.flush.tag)
        (if recorded then noted else (sync_files env (file ∷ []) noted).0)

  -- The cleaner is told of the end of its own tasks.
  abbrev pub finished_events : Task → Manager Disk R → List Event
  finished_events task m =
      if task.flush.cleaner_owned && has_cleaner m.cleaner
      then Event.cleaner_flush_finished task.flush.tag ∷ m.events
      else m.events

  -- FinalizeFlushTask up to what it does after a success.
  unfoldable pub finish_task : Task → Status → Manager Disk R → Manager Disk R
  unfolding complete_flush
  finish_task task status m =
      let observed = observe (Event.flush_task_completion task.flush.tag status) m in
      let completed =
        if task.flush.clear_dirty_on_success
        then complete_flush task.flush.frame_id status observed
        else observed in
      record (in_cleaner env task.flush.cleaner_owned Cleaner.on_flush_finished completed) {
        events = finished_events task completed;
      }

  unfoldable pub finalize_flush_task : Task → Status → Manager Disk R → Manager Disk R
  unfolding finish_task note_flushed
  finalize_flush_task task status m =
      if succeeded status
      then note_flushed task (finish_task task status m)
      else finish_task task status m

  -- The write of one task by its caller or by a worker, between its start and its end.
  unfoldable pub write_task : Task → Manager Disk R → Manager Disk R × Status
  unfolding begin_flush_task finalize_flush_task
  write_task task m =
      let begun = begin_flush_task task m in
      let (disk, status) = env.write begun.disk task.flush.tag task.snapshot in
      (finalize_flush_task task status (record begun { disk = disk }), status)

  unfoldable pub write_flush_task_direct : Task → Manager Disk R → Manager Disk R × Status
  unfolding write_task
  write_flush_task_direct task m =
      write_task task (observe (Event.flush_task_scheduled task.flush.tag) m)

  -- EnqueueFlushTask, and the worker that serves the task; on success the task's own outcome.
  unfoldable pub enqueue_flush_task : Task → Manager Disk R → Manager Disk R × Result Status
  unfolding write_task
  enqueue_flush_task task m =
      let counted = in_cleaner env task.flush.cleaner_owned Cleaner.on_flush_scheduled m in
      let (served, status) = write_task task counted in
      if m.stopped
      then (counted, failure (unavailable "flush scheduler is shutting down"))
      else (served, value status)
