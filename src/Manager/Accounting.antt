-- ===== src/Manager/Accounting.antt =====
-- Every operation of src/cpp/lib/buffer/buffer_manager*.cc that changes the control word of a frame
-- keeps the number of dirty pages right.
use tele_path.Prelude.{ℕ, ◌^◌, ◌<◌, ◌≡◌, refl, sym, ap, ◌∙◌, subst, Bool, true, false, store}
use tele_path.Common.Status.{Status, ok, error}
use tele_path.FrameControl.Fields.{view}
use tele_path.FrameControl.Ops
use tele_path.FrameControl.Ops.{Attempt, ReserveOutcome, DiscardOutcome}
use tele_path.FrameControl.Spec.{Op, transition, written, Allowed}
use tele_path.Manager.Types.{Env, Manager, Descriptor, word_of, operate, change_descriptor, on_word}
use tele_path.Manager.Frames.{
  release_frame, mark_handle_dirty, mark_descriptor, bump_version, release_shared_handle,
  release_exclusive_handle,
}
use tele_path.Manager.Flushing.{
  queue_writeback, queued_descriptor, failed_descriptor, roll_back_flush_task,
}
use tele_path.Manager.Writeback.{completed_descriptor, complete_flush}
use tele_path.Manager.DirtyWords.{IsTidy, dirt, KeepsDirt, after-dirt, became-dirty, completes-dirt}
use tele_path.Manager.Dirty.{AreCounted, keep-AreCounted, more-AreCounted, less-AreCounted}

abbrev pub IsCounted : {Disk R : Type 0} → Env Disk R → Manager Disk R → Type 0
IsCounted env m = AreCounted env.pool_size m.descriptors m.dirty_page_count

module _ {Disk R : Type 0} (env : Env Disk R) (f : ℕ) (low : f < env.pool_size) where
  -- An operation on one word that keeps the dirty bit, with any other change to its descriptor.
  pub operate-IsCounted :
      (op : Op) {A : Type 0} (a : ℕ → Attempt A) (m : Manager Disk R) (d : Descriptor)
      → transition op (word_of m f) ≡ written (a (word_of m f))
      → d.control ≡ (operate a (m.descriptors f)).control
      → IsCounted env m
      → Allowed op (view (word_of m f))
      → KeepsDirt op (view (word_of m f))
      → AreCounted env.pool_size (store m.descriptors f d) m.dirty_page_count
  operate-IsCounted op a m d e same c allowed keeps =
      let (tidy, kept) =
        after-dirt op (a (word_of m f)) (word_of m f) e (c.tidy f low) allowed keeps in
      keep-AreCounted env.pool_size f m.descriptors d m.dirty_page_count c low
        (subst IsTidy (sym same) tidy) (ap dirt same ∙ kept)

  pub release_frame-IsCounted :
      (m : Manager Disk R) → IsCounted env m → IsCounted env (release_frame env f m)
  unfolding release_frame transition
  release_frame-IsCounted m c =
      operate-IsCounted Op.unpin Ops.unpin m (operate Ops.unpin (m.descriptors f)) refl refl c tt tt

  pub mark-IsCounted :
      (lsn : ℕ) (m : Manager Disk R)
      → env.pool_size < 2 ^ 32
      → IsCounted env m
      → IsCounted env (mark_handle_dirty env f lsn m)
  unfolding mark_handle_dirty mark_descriptor
  mark-IsCounted lsn m small c =
      let (tidy, bit) = became-dirty (word_of m f) (c.tidy f low) in
      more-AreCounted env.pool_size f m.descriptors (mark_descriptor lsn (m.descriptors f))
        m.dirty_page_count c low tidy _ small bit

  pub release_shared-IsCounted :
      (m : Manager Disk R)
      → IsCounted env m
      → 0 < (view (word_of m f)).shared
      → IsCounted env (release_shared_handle env f m)
  unfolding release_shared_handle transition
  release_shared-IsCounted m c held = release_frame-IsCounted (on_word f Ops.release_shared m) (
      operate-IsCounted Op.release_shared Ops.release_shared m
        (operate Ops.release_shared (m.descriptors f)) refl refl c held tt)

  pub release_exclusive-IsCounted :
      (m : Manager Disk R) → IsCounted env m → IsCounted env (release_exclusive_handle env f m)
  unfolding release_exclusive_handle transition bump_version
  release_exclusive-IsCounted m c =
      release_frame-IsCounted
        (change_descriptor f (λ d. operate Ops.release_exclusive (bump_version d)) m)
        (operate-IsCounted Op.release_exclusive Ops.release_exclusive m
          (operate Ops.release_exclusive (bump_version (m.descriptors f))) refl refl c tt tt)

  pub queue-IsCounted :
      (cleaner_owned : Bool) (m : Manager Disk R)
      → IsCounted env m
      → IsCounted env (queue_writeback env f cleaner_owned m)
  unfolding queue_writeback transition queued_descriptor
  queue-IsCounted cleaner_owned m c =
      operate-IsCounted (Op.try_queue_writeback cleaner_owned)
        (Ops.try_queue_writeback cleaner_owned) m
        (queued_descriptor (operate (Ops.try_queue_writeback cleaner_owned) (m.descriptors f))) refl
        refl c tt tt

  pub roll_back-IsCounted :
      (cleaner_owned : Bool) (status : Status) (m : Manager Disk R)
      → IsCounted env m
      → IsCounted env (roll_back_flush_task env f cleaner_owned status m)
  unfolding roll_back_flush_task transition failed_descriptor
  roll_back-IsCounted cleaner_owned status m c =
      operate-IsCounted Op.cancel_queued_writeback Ops.cancel_queued_writeback m
        (operate Ops.cancel_queued_writeback (failed_descriptor status (m.descriptors f))) refl refl
        c tt tt

  pub complete-IsCounted :
      (status : Status) (m : Manager Disk R)
      → env.pool_size < 2 ^ 32
      → IsCounted env m
      → IsCounted env (complete_flush env f status m)
  unfolding complete_flush completed_descriptor failed_descriptor
  complete-IsCounted ok m small c =
      let (tidy, bit) = completes-dirt true (word_of m f) (c.tidy f low) in
      less-AreCounted env.pool_size f m.descriptors (completed_descriptor ok (m.descriptors f))
        m.dirty_page_count c low tidy _ small bit
  complete-IsCounted (error e) m small c =
      let (tidy, bit) = completes-dirt false (word_of m f) (c.tidy f low) in
      less-AreCounted env.pool_size f m.descriptors
        (completed_descriptor (error e) (m.descriptors f)) m.dirty_page_count c low tidy _ small bit
