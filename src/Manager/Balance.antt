-- ===== src/Manager/Balance.antt =====
-- The flush, the reservation and the discarding of a frame in src/cpp/lib/buffer/buffer_manager*.cc keep
-- the number of dirty pages right.
use tele_path.Prelude.{
  ℕ, ◌^◌, ◌<◌, ◌≡◌, inl, inr, refl, sym, ap, ◌∙◌, subst, Bool, true, false, Option, none, some,
  if◌then◌else◌, Bool-cases,
}
use tele_path.Common.Types.{BufferTag, tag_eq}
use tele_path.Common.Status.{Status}
use tele_path.FrameControl.Fields.{view}
use tele_path.FrameControl.Ops
use tele_path.FrameControl.Ops.{Attempt, leave, reload, swap, ReserveOutcome, DiscardOutcome}
use tele_path.FrameControl.Spec.{Op, transition, written, Allowed}
use tele_path.Manager.Types.{
  Env, Manager, Task, word_of, operate, set_word, on_word, observe, Event,
}
use tele_path.Manager.Frames.{load_tag, reset_cleaner_candidate, check_pinned}
use tele_path.Manager.Flushing.{succeeded}
use tele_path.Manager.Writeback.{
  begin_flush_task, complete_flush, note_flushed, finish_task, finalize_flush_task,
}
use tele_path.Manager.FileFrames.{note_flushed-SameFrames}
use tele_path.Manager.Reserve.{Reservation}
use tele_path.Manager.Loading.{publish_loaded_frame}
use tele_path.Manager.DirtyWords.{IsTidy}
use tele_path.Manager.Dirty.{dirty_frames}
use tele_path.Manager.Accounting.{IsCounted, operate-IsCounted, complete-IsCounted}

module _ {Disk R : Type 0} (env : Env Disk R) where
  pub begin-IsCounted :
      (task : Task) (m : Manager Disk R)
      → task.flush.frame_id < env.pool_size
      → IsCounted env m
      → IsCounted env (begin_flush_task env task m)
  unfolding begin_flush_task transition
  begin-IsCounted task m low c =
      let f = task.flush.frame_id in
      let begun =
        operate-IsCounted env f low Op.begin_writeback Ops.begin_writeback m
          (operate Ops.begin_writeback (m.descriptors f)) refl refl c tt tt in
      elim (Bool-cases (task.flush.clear_dirty_on_success)) [
        | inl clears ↦ rw clears begun
        | inr keeps ↦ rw keeps c
      ]

  IsCounted-if :
      (b : Bool) (m m' : Manager Disk R)
      → IsCounted env m
      → IsCounted env m'
      → IsCounted env (if b then m else m')
  IsCounted-if true m m' c c' = c
  IsCounted-if false m m' c c' = c'

  flushed-IsCounted :
      (task : Task) (m : Manager Disk R) → IsCounted env m → IsCounted env (note_flushed env task m)
  flushed-IsCounted task m c =
      let same = note_flushed-SameFrames env task m in
      record {
        tidy =
            subst (λ ds. (f : ℕ) → f < env.pool_size → IsTidy ((ds f).control)) (sym same.0) c.tidy;
        counted = same.4 ∙ c.counted ∙ ap (dirty_frames env.pool_size) (sym same.0);
      }

  finish-IsCounted :
      (task : Task) (status : Status) (m : Manager Disk R)
      → task.flush.frame_id < env.pool_size
      → env.pool_size < 2 ^ 32
      → IsCounted env m
      → IsCounted env (finish_task env task status m)
  unfolding finish_task
  finish-IsCounted task status m low small c =
      let observed = observe (Event.flush_task_completion task.flush.tag status) m in
      IsCounted-if (task.flush.clear_dirty_on_success)
        (complete_flush env task.flush.frame_id status observed) observed
        (complete-IsCounted env task.flush.frame_id low status observed small c) c

  pub finalize-IsCounted :
      (task : Task) (status : Status) (m : Manager Disk R)
      → task.flush.frame_id < env.pool_size
      → env.pool_size < 2 ^ 32
      → IsCounted env m
      → IsCounted env (finalize_flush_task env task status m)
  unfolding finalize_flush_task
  finalize-IsCounted task status m low small c =
      let finished = finish-IsCounted task status m low small c in
      IsCounted-if (succeeded status) (note_flushed env task (finish_task env task status m))
        (finish_task env task status m)
        (flushed-IsCounted task (finish_task env task status m) finished) finished

  pub publish-IsCounted :
      (tag : BufferTag) (r : Reservation) (read_from_disk release_pin : Bool) (m : Manager Disk R)
      → r.frame_id < env.pool_size
      → Allowed (Op.publish_resident release_pin) (view (word_of m r.frame_id))
      → IsCounted env m
      → IsCounted env (publish_loaded_frame env tag r read_from_disk release_pin m)
  unfolding publish_loaded_frame transition reset_cleaner_candidate
  publish-IsCounted tag r read_from_disk release_pin m low held c =
      let f = r.frame_id in
      operate-IsCounted env f low (Op.publish_resident release_pin)
        (Ops.publish_resident release_pin) m
        (operate (Ops.publish_resident release_pin) (m.descriptors f)) refl refl c held tt

  -- Whatever a call that returns leaves.
  abbrev pub Leaves :
      {A : Type 0} → (Manager Disk R → Type 0) → Option (Manager Disk R × A) → Type 0
  Leaves P none = Unit {0}
  Leaves P (some (m, a)) = P m

  if-Leaves :
      {A : Type 0} (P : Manager Disk R → Type 0) (b : Bool) (r r' : Option (Manager Disk R × A))
      → Leaves P r
      → Leaves P r'
      → Leaves P (if b then r else r')
  if-Leaves P true r r' h h' = h
  if-Leaves P false r r' h h' = h'

  pub check_pinned-IsCounted :
      (f : ℕ) (tag : BufferTag) (record_access : Bool) (a : Attempt Bool) (m : Manager Disk R)
      → f < env.pool_size
      → transition Op.try_pin_resident (word_of m f) ≡ written a
      → IsCounted env m
      → Leaves (IsCounted env) (check_pinned env f tag record_access a m)
  unfolding check_pinned transition
  check_pinned-IsCounted f tag record_access (leave r) m low e c = c
  check_pinned-IsCounted f tag record_access reload m low e c = tt
  check_pinned-IsCounted f tag record_access (swap next wake r) m low e c =
      let d = operate (λ word. swap next wake r) (m.descriptors f) in
      let held = set_word f next m in
      let c' : IsCounted env held =
        operate-IsCounted env f low Op.try_pin_resident (λ word. swap next wake r) m d e refl c tt
          tt in
      let recorded = record held { replacer = env.record_access held.replacer f } in
      let dropped : IsCounted env (on_word f Ops.unpin held) =
        operate-IsCounted env f low Op.unpin Ops.unpin held (operate Ops.unpin (held.descriptors f))
          refl refl c' tt tt in
      if-Leaves (IsCounted env) (tag_eq (load_tag env held f) tag) _ _
        (IsCounted-if record_access recorded held c' c') dropped
