-- ===== src/Manager/Pool.antt =====
-- src/cpp/lib/buffer/buffer_manager.cc: the calls that go over all frames, and HasPinnedFrame and
-- HasTransientFrame of buffer_manager_eviction.cc.
use tele_path.Prelude.{
  ℕ, zero, suc, ◌+◌, Bool, true, false, not, ◌&&◌, ◌||◌, Option, none, some, List, [], ◌∷◌, ◌==◌,
  ltb, min, if◌then◌else◌,
}
use tele_path.Common.Types.{invalid_lsn}
use tele_path.Common.Status.{Status, ok, error}
use tele_path.Common.Results.{Result, value, failure, or_else}
use tele_path.FrameControl.Word.{BufferFrameState, state_code, state, pins}
use tele_path.Manager.Types.{Env, Manager, Descriptor, Call, word_of, pure, always, ◌>>=◌}
use tele_path.Manager.Frames.{load_tag}
use tele_path.Manager.Files.{check_usable, sync_written_files}
use tele_path.Manager.Rounds.{
  Scheduled, scheduled, not_scheduled, try_schedule_flush_task, foreground_flush_round,
  flush_rounds, wait_for_scheduled_flushes, flush_busy_frames,
}

unfoldable pub frame_rec_lsn : Descriptor → ℕ
frame_rec_lsn d =
    if d.rec_lsn == invalid_lsn
    then d.writeback_rec_lsn
    else if d.writeback_rec_lsn == invalid_lsn
    then d.rec_lsn
    else min d.rec_lsn d.writeback_rec_lsn

-- The loop of MinRecLsn over `left` descriptors from `frame` on.
unfoldable pub oldest_from : ℕ → ℕ → (ℕ → Descriptor) → ℕ → ℕ
unfolding frame_rec_lsn
oldest_from zero frame descriptors oldest = oldest
oldest_from (suc left) frame descriptors oldest =
    let rec_lsn = frame_rec_lsn (descriptors frame) in
    oldest_from left (frame + 1) descriptors (
      if not (rec_lsn == invalid_lsn) && (oldest == invalid_lsn || ltb rec_lsn oldest)
      then rec_lsn
      else oldest)

-- The tasks that WriteBackFrames has scheduled, as their outcomes, and the frames that were busy.
pub record Collected : Type 0 where
  pub statuses : List Status
  pub busy_frames : List ℕ

abbrev pub collect : ℕ → Result Scheduled → Result Collected → Result Collected
collect frame result (failure e) = failure e
collect frame (failure e) (value c) = failure e
collect frame (value (scheduled status)) (value c) =
    value (record c { statuses = status ∷ c.statuses })
collect frame (value (not_scheduled true)) (value c) =
    value (record c { busy_frames = frame ∷ c.busy_frames })
collect frame (value (not_scheduled false)) (value c) = value c

abbrev pub nothing_collected : Result Collected
nothing_collected = value (record { statuses = []; busy_frames = [] })

module _ {Disk R : Type 0} (env : Env Disk R) where
  unfoldable pub min_rec_lsn : Manager Disk R → Option ℕ
  unfolding oldest_from
  min_rec_lsn m =
      let oldest = oldest_from env.pool_size 0 m.descriptors invalid_lsn in
      if oldest == invalid_lsn then none else some oldest

  unfoldable pub has_pinned_from : ℕ → ℕ → Manager Disk R → Bool
  has_pinned_from zero frame m = false
  has_pinned_from (suc left) frame m =
      not (pins (word_of m frame) == 0) || has_pinned_from left (frame + 1) m

  unfoldable pub has_pinned_frame : Manager Disk R → Bool
  unfolding has_pinned_from
  has_pinned_frame = has_pinned_from env.pool_size 0

  abbrev pub is_transient : ℕ → Bool
  is_transient word = pins word == 0 || state word == state_code BufferFrameState.loading

  unfoldable pub has_transient_from : ℕ → ℕ → Manager Disk R → Bool
  has_transient_from zero frame m = false
  has_transient_from (suc left) frame m =
      is_transient (word_of m frame) || has_transient_from left (frame + 1) m

  unfoldable pub has_transient_frame : Manager Disk R → Bool
  unfolding has_transient_from
  has_transient_frame = has_transient_from env.pool_size 0

  -- The loop of WriteBackFrames over `left` frames from `frame` on. An error ends it.
  unfoldable pub collect_from : ℕ → ℕ → (Manager Disk R → ℕ → Bool) → Call Disk R (Result Collected)
  unfolding try_schedule_flush_task
  collect_from zero frame selected = pure nothing_collected
  collect_from (suc left) frame selected =
      let rest = collect_from left (frame + 1) selected in
      λ m.
        if selected m frame
        then (do
          result ← try_schedule_flush_task env frame none true false
          elim result [
            | failure e ↦ pure (failure e)
            | value s ↦ (do more ← rest; pure (collect frame (value s) more))
          ])
            m
        else rest m

  abbrev pub finish_collected : Result Collected → Call Disk R Status
  finish_collected (failure e) = pure (error e)
  finish_collected (value c) = do
    flush_status ← flush_busy_frames env c.busy_frames
    pure (or_else (wait_for_scheduled_flushes c.statuses) flush_status)

  unfoldable pub write_back_frames : (Manager Disk R → ℕ → Bool) → Call Disk R Status
  unfolding collect_from flush_busy_frames wait_for_scheduled_flushes
  write_back_frames selected = do
    collected ← collect_from env.pool_size 0 selected
    finish_collected collected

  -- A call that fails once the manager has failed or is closed.
  abbrev pub if_usable : Call Disk R Status → Call Disk R Status
  if_usable call m = elim (check_usable env m) [ error e ↦ some (m, error e) | ok ↦ call m ]

  abbrev pub then_sync : Status → Call Disk R Status
  then_sync ok = always (sync_written_files env)
  then_sync (error e) = pure (error e)

  unfoldable pub flush_all : Call Disk R Status
  unfolding check_usable write_back_frames sync_written_files
  flush_all = if_usable (do written ← write_back_frames (λ m frame. true); then_sync written)

  unfoldable pub flush_file_buffers : ℕ → Call Disk R Status
  unfolding check_usable write_back_frames
  flush_file_buffers file_id =
      if_usable (write_back_frames (λ m frame. (load_tag env m frame).file_id == file_id))

  -- Whether the page of a frame has a logged change from before `lsn` that is not on disk.
  abbrev pub before : ℕ → Manager Disk R → ℕ → Bool
  before lsn m frame =
      let rec_lsn = frame_rec_lsn (m.descriptors frame) in
      not (rec_lsn == invalid_lsn) && ltb rec_lsn lsn

  -- The inner loop of CheckpointBuffers; the fuel bounds its rounds.
  unfoldable pub flush_before : ℕ → ℕ → ℕ → Call Disk R Status
  unfolding frame_rec_lsn foreground_flush_round
  flush_before zero lsn frame m = none
  flush_before (suc fuel) lsn frame m =
      let again = flush_before fuel lsn frame in
      elim (before lsn m frame) [
        | false ↦ some (m, ok)
        | true ↦
            (do
              round ← foreground_flush_round env frame none
              elim round [
                | failure e ↦ pure (error e)
                | value false ↦ pure ok
                | value true ↦ again
              ])
              m
      ]

  unfoldable pub checkpoint_from : ℕ → ℕ → ℕ → Call Disk R Status
  unfolding flush_before
  checkpoint_from zero frame lsn = pure ok
  checkpoint_from (suc left) frame lsn =
      let rest = checkpoint_from left (frame + 1) lsn in
      (do
        status ← flush_before flush_rounds lsn frame
        elim status [ error e ↦ pure (error e) | ok ↦ rest ])

  unfoldable pub checkpoint_buffers : ℕ → Call Disk R Status
  unfolding check_usable write_back_frames checkpoint_from sync_written_files frame_rec_lsn
  checkpoint_buffers lsn = if_usable (do
    written ← write_back_frames (before lsn)
    flushed ← elim written [ error e ↦ pure (error e) | ok ↦ checkpoint_from env.pool_size 0 lsn ]
    then_sync flushed)
