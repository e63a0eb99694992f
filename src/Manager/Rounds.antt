-- ===== src/Manager/Rounds.antt =====
-- src/cpp/lib/buffer/buffer_manager_flush.cc: the loops over flushes, with WriteBackFrames,
-- CheckpointBuffers, FlushAll and the FlushBuffer overloads of buffer_manager.cc, and
-- ScheduleCleanerFlush of buffer_manager_cleaner.cc.
use tele_path.Prelude.{
  ℕ, zero, suc, Bool, true, false, Option, none, List, [], ◌∷◌, leb, if◌then◌else◌,
}
use tele_path.Common.Status.{Status, ok, error}
use tele_path.Common.Results.{Result, value, failure, invalid_argument, or_else}
use tele_path.Manager.Types.{
  Page, Event, Env, Task, Manager, Call, observe, update, pure, always, ◌>>=◌,
}
use tele_path.Manager.Flushing.{Created, created, skipped, create_flush_task, roll_back_flush_task}
use tele_path.Manager.Writeback.{enqueue_flush_task, write_flush_task_direct}

-- A task that was enqueued, with the outcome that its worker gave it, or the null pointer with what
-- `*was_busy` receives.
pub data Scheduled : Type 0 where
  scheduled : Status → Scheduled
  not_scheduled : Bool → Scheduled

-- Whether a page was written.
abbrev pub wrote : Status → Result Bool
wrote ok = value true
wrote (error e) = failure e

abbrev pub queued_outcome : Result Scheduled → Result Bool
queued_outcome (failure e) = failure e
queued_outcome (value (not_scheduled busy)) = value false
queued_outcome (value (scheduled status)) = wrote status

-- A round that wrote leaves the page clean, and the next one ends the loop.
abbrev pub flush_rounds : ℕ
flush_rounds = 2

-- Every task is waited for; the first error counts.
unfoldable pub wait_for_scheduled_flushes : List Status → Status
wait_for_scheduled_flushes [] = ok
wait_for_scheduled_flushes (status ∷ more) = or_else status (wait_for_scheduled_flushes more)

module _ {Disk R : Type 0} (env : Env Disk R) where
  unfoldable pub note_scheduled : Task → Manager Disk R → Manager Disk R
  note_scheduled task m =
      let noted = observe (Event.flush_task_scheduled task.flush.tag) m in
      if task.flush.cleaner_owned
      then observe (Event.cleaner_flush_scheduled task.flush.tag) noted
      else noted

  abbrev pub enqueued :
      ℕ → Bool → Task → Manager Disk R → Result Status → Manager Disk R × Result Scheduled
  enqueued frame cleaner_owned task m (failure e) =
      (roll_back_flush_task env frame cleaner_owned (error e) m, failure e)
  enqueued frame cleaner_owned task m (value status) =
      (note_scheduled task m, value (scheduled status))

  unfoldable pub schedule_created :
      ℕ → Bool → Result Created → Manager Disk R → Manager Disk R × Result Scheduled
  unfolding enqueue_flush_task note_scheduled
  schedule_created frame cleaner_owned (failure e) m = (m, failure e)
  schedule_created frame cleaner_owned (value (skipped busy)) m = (m, value (not_scheduled busy))
  schedule_created frame cleaner_owned (value (created task)) m =
      let (queued, result) = enqueue_flush_task env task m in
      enqueued frame cleaner_owned task queued result

  unfoldable pub try_schedule_flush_task :
      ℕ → Option Page → Bool → Bool → Call Disk R (Result Scheduled)
  unfolding schedule_created
  try_schedule_flush_task frame stable_data opportunistic cleaner_owned = do
    task ← create_flush_task env frame stable_data opportunistic cleaner_owned
    always (schedule_created frame cleaner_owned task)

  unfoldable pub write_created : Result Created → Manager Disk R → Manager Disk R × Result Bool
  write_created (failure e) m = (m, failure e)
  write_created (value (skipped busy)) m = (m, value false)
  write_created (value (created task)) m =
      let (written, status) = write_flush_task_direct env task m in (written, wrote status)

  unfoldable pub foreground_flush_round : ℕ → Option Page → Call Disk R (Result Bool)
  unfolding try_schedule_flush_task write_created
  foreground_flush_round frame stable_data =
      if env.queued_writeback
      then (do
        task ← try_schedule_flush_task frame stable_data false false
        pure (queued_outcome task))
      else (do
        task ← create_flush_task env frame stable_data false false
        always (write_created task))

  -- The loop of RunForegroundFlush. The fuel bounds its rounds.
  unfoldable pub run_foreground_flush : ℕ → ℕ → Option Page → Call Disk R Status
  unfolding foreground_flush_round
  run_foreground_flush zero frame stable_data m = none
  run_foreground_flush (suc fuel) frame stable_data m =
      let again = run_foreground_flush fuel frame stable_data in
      (do
        round ← foreground_flush_round frame stable_data
        elim round [ failure e ↦ pure (error e) | value false ↦ pure ok | value true ↦ again ])
        m

  unfoldable pub flush_frame_with_stable_source : ℕ → Option Page → Call Disk R Status
  unfolding run_foreground_flush
  flush_frame_with_stable_source frame stable_data =
      if leb env.pool_size frame
      then pure (error (invalid_argument "invalid frame id"))
      else run_foreground_flush flush_rounds frame stable_data

  unfoldable pub flush_frame : ℕ → Call Disk R Status
  unfolding flush_frame_with_stable_source
  flush_frame frame = flush_frame_with_stable_source frame none

  abbrev pub round_status : Result Bool → Status
  round_status (failure e) = error e
  round_status (value wrote_page) = ok

  unfoldable pub flush_frame_once : ℕ → Option Page → Call Disk R Status
  unfolding foreground_flush_round
  flush_frame_once frame stable_data = do
    round ← foreground_flush_round frame stable_data
    pure (round_status round)

  abbrev pub note_skipped : Result Scheduled → Manager Disk R → Manager Disk R
  note_skipped (value (scheduled status)) m = m
  note_skipped (value (not_scheduled busy)) m = observe Event.cleaner_flush_skipped m
  note_skipped (failure e) m = observe Event.cleaner_flush_skipped m

  unfoldable pub schedule_cleaner_flush : ℕ → Call Disk R (Unit {0})
  unfolding try_schedule_flush_task
  schedule_cleaner_flush frame = do
    result ← try_schedule_flush_task frame none true true
    update (note_skipped result)

  unfoldable pub flush_busy_frames : List ℕ → Call Disk R Status
  unfolding flush_frame
  flush_busy_frames [] = pure ok
  flush_busy_frames (frame ∷ frames) = do
    first ← flush_frame frame
    second ← flush_busy_frames frames
    pure (or_else first second)
