-- ===== src/Manager/Claims.antt =====
-- The claim of a frame in src/cpp/lib/buffer/buffer_manager_eviction.cc, and how a frame is given back,
-- keep the count of dirty pages.
use tele_path.Prelude.{
  store_self, ℕ, ◌+◌, ◌-◌, ◌%◌, ◌^◌, ◌<◌, ◌≡◌, ◌≢◌, refl, sym, ap, subst, Bool, Option, none, some,
  if◌then◌else◌, store, arith,
}
use tele_path.Common.Types.{BufferTag, no_tag}
use tele_path.FrameControl.Fields.{view, view-Fits}
use tele_path.FrameControl.Word
use tele_path.FrameControl.Ops
use tele_path.PageTable.Ops as Entries
use tele_path.Manager.PinWords.{reserved-fields}
use tele_path.Manager.Words.{readers-view}
use tele_path.FrameControl.Ops.{Attempt, leave, reload, swap, ReserveOutcome, DiscardOutcome}
use tele_path.FrameControl.Spec.{Op, transition}
use tele_path.Manager.Types.{
  Env, Manager, Descriptor, word_of, operate, change_descriptor, outcome, on_word,
}
use tele_path.Manager.Frames.{store_tag, reset_cleaner_candidate}
use tele_path.Manager.Reserve.{
  Reservation, release_free_frame, give_back, abort_load_reservation, finish_reservation,
  install_reservation_entry, retag, claim_frame, try_reserve_frame_for_tag,
}
use tele_path.Manager.Dropping.{finish_discard, forget_lsns}
use tele_path.Manager.DirtyWords.{dirt, discards-dirt}
use tele_path.Manager.Dirty.{keep-AreCounted, less-AreCounted}
use tele_path.Manager.Accounting.{IsCounted, operate-IsCounted}

module _ {Disk R : Type 0} (env : Env Disk R) where
  -- Giving a claimed frame back: it is not resident, so no dirty page is forgotten.
  give_back-IsCounted :
      (f : ℕ) (m : Manager Disk R)
      → f < env.pool_size
      → (view (word_of m f)).state ≢ 2
      → IsCounted env m
      → IsCounted env (give_back env f m)
  unfolding release_free_frame reset_cleaner_candidate transition
  give_back-IsCounted f m low loaded c =
      let untagged = record (m.descriptors f) { tag = no_tag } in
      let m' = store_tag env f no_tag m in
      let c' : IsCounted env m' =
        keep-AreCounted env.pool_size f m.descriptors untagged m.dirty_page_count c low
          (c.tidy f low) refl in
      let same : word_of m' f ≡ word_of m f =
        ap (λ (d : Descriptor). d.control) (store_self m.descriptors f untagged) in
      operate-IsCounted env f low Op.release_to_free Ops.release_to_free m'
        (operate Ops.release_to_free (m'.descriptors f)) refl refl c' tt
        (subst (λ w. (view w).state ≢ 2) (sym same) loaded)

  pub abort-IsCounted :
      (f : ℕ) (tag : BufferTag) (m : Manager Disk R)
      → f < env.pool_size
      → (view (word_of m f)).state ≢ 2
      → IsCounted env m
      → IsCounted env (abort_load_reservation env f tag m)
  unfolding abort_load_reservation
  abort-IsCounted f tag m low loaded c =
      give_back-IsCounted f (record m { page_table = Entries.remove m.page_table tag f }) low loaded
        c

  finish_reservation-IsCounted :
      (r : Reservation) (m : Manager Disk R) (existing : Option ℕ)
      → r.frame_id < env.pool_size
      → (view (word_of m r.frame_id)).state ≢ 2
      → IsCounted env m
      → IsCounted env (finish_reservation env r (m, existing)).0
  unfolding finish_reservation reset_cleaner_candidate
  finish_reservation-IsCounted r m none low loading c = c
  finish_reservation-IsCounted r m (some other) low loading c =
      give_back-IsCounted r.frame_id m low loading c

  claim-IsCounted :
      (f : ℕ) (tag : BufferTag) (allow : Bool) (result : ReserveOutcome × ℕ) (m : Manager Disk R)
      → f < env.pool_size
      → (result.0 ≡ ReserveOutcome.reserved → (view (word_of m f)).state ≢ 2)
      → IsCounted env m
      → IsCounted env (claim_frame env f tag allow result m).0
  unfolding claim_frame install_reservation_entry retag
  claim-IsCounted f tag allow (ReserveOutcome.rejected, observed) m low loading c = c
  claim-IsCounted f tag allow (ReserveOutcome.needs_flush, observed) m low loading c = c
  claim-IsCounted f tag allow (ReserveOutcome.reserved, observed) m low loading c =
      let r : Reservation = record {
        frame_id = f;
        evicted_tag = if Word.is_resident observed then some ((m.descriptors f).tag) else none;
      } in
      let m' = change_descriptor f (retag tag) m in
      let c' : IsCounted env m' =
        keep-AreCounted env.pool_size f m.descriptors (retag tag (m.descriptors f))
          m.dirty_page_count c low (c.tidy f low) refl in
      let same : word_of m' f ≡ word_of m f =
        ap (λ (d : Descriptor). d.control)
          (store_self m.descriptors f (retag tag (m.descriptors f))) in
      let (installed, existing) = install_reservation_entry env tag r m' in
      finish_reservation-IsCounted r installed existing low
        (subst (λ w. (view w).state ≢ 2) (sym same) (loading refl)) c'

  pub try_reserve-IsCounted :
      (f : ℕ) (tag : BufferTag) (allow from_free_list : Bool) (m : Manager Disk R)
      → f < env.pool_size
      → IsCounted env m
      → IsCounted env (try_reserve_frame_for_tag env f tag allow from_free_list m).0
  unfolding try_reserve_frame_for_tag transition
  try_reserve-IsCounted f tag allow from_free_list m low c =
      let op = Ops.try_reserve from_free_list in
      let m' = on_word f op m in
      let w' = operate op (m.descriptors f) in
      let same : word_of m' f ≡ w'.control =
        ap (λ (d : Descriptor). d.control) (store_self m.descriptors f w') in
      claim-IsCounted f tag allow (outcome (ReserveOutcome.rejected, 0) f op m) m' low
        (λ reserved e.
          let fields =
            reserved-fields from_free_list (word_of m f) ((c.tidy f low).small) reserved in
          absurd (omega (arith, ap (λ w. (view w).state) same, fields.0, e)))
        (operate-IsCounted env f low (Op.try_reserve from_free_list) op m w' refl refl c tt tt)

  -- The end of DropFileBuffers on a frame that it has discarded.
  pub discard-IsCounted :
      (f : ℕ) (tag : BufferTag) (m : Manager Disk R)
      → f < env.pool_size
      → env.pool_size < 2 ^ 32
      → (outcome (DiscardOutcome.busy, 0) f Ops.try_discard_pinned m).0 ≡ DiscardOutcome.discarded
      → IsCounted env m
      → IsCounted env (
          finish_discard env f tag
            (outcome (DiscardOutcome.busy, 0) f Ops.try_discard_pinned m).1
            (on_word f Ops.try_discard_pinned m))
  unfolding finish_discard release_free_frame reset_cleaner_candidate
  discard-IsCounted f tag m low small e c =
      let n = env.pool_size in
      let w = word_of m f in
      let d = operate Ops.try_discard_pinned (m.descriptors f) in
      let discarded = store m.descriptors f d in
      let forgotten = store discarded f (forget_lsns (discarded f)) in
      let previous = (outcome (DiscardOutcome.busy, 0) f Ops.try_discard_pinned m).1 in
      let count =
        if Word.is_dirty previous
        then (m.dirty_page_count + (2 ^ 64 - 1)) % 2 ^ 64
        else m.dirty_page_count in
      let (tidy, clean, same) = discards-dirt w e in
      let bits = view-Fits w in
      let (state, pins, resident, dirty, writing) = readers-view w ((c.tidy f low).small) in
      let bit : dirt d.control + (if Word.is_dirty previous then 1 else 0) ≡ dirt w =
        rw (same, dirty, clean) (ground (arith, bits.dirty)) in
      let first =
        less-AreCounted n f m.descriptors d m.dirty_page_count c low tidy (Word.is_dirty previous)
          small bit in
      let second =
        keep-AreCounted n f discarded (forget_lsns (discarded f)) count first low (first.tidy f low)
          refl in
      keep-AreCounted n f forgotten (record (forgotten f) { tag = no_tag }) count second low
        (second.tidy f low) refl
