-- ===== src/Manager/Frames.antt =====
-- src/cpp/lib/buffer/buffer_manager_read.cc, the tests of one frame, buffer_manager_cleaner.cc, and
-- ReleaseFrame and MarkHandleDirty of buffer_manager_handle.cc.
use tele_path.Prelude.{
  ℕ, zero, suc, ◌+◌, ◌%◌, ◌^◌, Bool, true, false, not, Option, none, some, ◌==◌, ◌&&◌, leb,
  if◌then◌else◌,
}
use tele_path.Common.Types.{BufferTag, tag_eq}
use tele_path.FrameControl.Word.{
  BufferFrameState, state_code, state, pins, is_resident, is_dirty, has_writeback,
}
use tele_path.FrameControl.Errors.{lowered}
use tele_path.FrameControl.Ops
use tele_path.FrameControl.Ops.{Attempt, leave, reload, swap}
use tele_path.PageTable.Table.{lookup_frame_id}
use tele_path.Flush.Cleaner
use mathlib.Core.Option
use tele_path.Manager.Types.{
  Env, Manager, Descriptor, Call, operate, set_word, change_descriptor, word_of, on_word, outcome,
  wait_while, update, ◌>>=◌, ◌>>◌,
}

unfoldable pub mark_descriptor : ℕ → Descriptor → Descriptor
mark_descriptor lsn d = record (operate Ops.mark_dirty d) { rec_lsn = lowered lsn d.rec_lsn }

unfoldable pub bump_version : Descriptor → Descriptor
bump_version d = record d { version = (d.version + 1) % 2 ^ 64 }

-- With the frame that `*frame_id` receives where the caller reads it.
pub data ResidentProbe : Type 0 where
  pinned loading : ℕ → ResidentProbe
  absent : ResidentProbe

-- Whether Unpin dropped the last pin of a dirty page.
abbrev pub last_dirty_pin : Option ℕ → Bool
last_dirty_pin none = false
last_dirty_pin (some previous) = pins previous == 1 && is_dirty previous

-- `became_dirty.value_or(false)`.
abbrev pub value_or_false : Option Bool → Bool
value_or_false none = false
value_or_false (some b) = b

unfoldable pub should_queue_cleaner_candidate : ℕ → Bool
should_queue_cleaner_candidate word =
    if not (is_resident word)
    then false
    else if not (is_dirty word)
    then false
    else if not (pins word == 0)
    then false
    else not (has_writeback word)

module _ {Disk R : Type 0} (env : Env Disk R) where
  abbrev pub load_tag : Manager Disk R → ℕ → BufferTag
  load_tag m frame = (m.descriptors frame).tag

  abbrev pub store_tag : ℕ → BufferTag → Manager Disk R → Manager Disk R
  store_tag frame tag = change_descriptor frame (λ d. record d { tag = tag })

  unfoldable pub is_loading_tag : ℕ → BufferTag → Manager Disk R → Bool
  is_loading_tag frame tag m =
      state (word_of m frame) == state_code BufferFrameState.loading
      && tag_eq (load_tag m frame) tag

  unfoldable pub is_live_for : ℕ → BufferTag → Manager Disk R → Bool
  is_live_for frame tag m =
      not (state (word_of m frame) == state_code BufferFrameState.free)
      && tag_eq (load_tag m frame) tag

  unfoldable pub is_resident_tag : BufferTag → Manager Disk R → Bool
  unfolding is_live_for
  is_resident_tag tag m = elim (lookup_frame_id m.page_table tag) [
    | none ↦ false
    | some frame ↦ is_live_for frame tag m
  ]

  -- The rest of TryPinResidentFrame, after its first step on the word.
  unfoldable pub check_pinned : ℕ → BufferTag → Bool → Attempt Bool → Call Disk R Bool
  check_pinned frame tag record_access (leave r) m = some (m, r)
  check_pinned frame tag record_access reload m = none
  check_pinned frame tag record_access (swap next wake r) m =
      let held = set_word frame next m in
      let recorded = record held { replacer = env.record_access held.replacer frame } in
      if tag_eq (load_tag held frame) tag
      then some (if record_access then recorded else held, true)
      else some (on_word frame Ops.unpin held, false)

  -- With all pins taken the call spins until one is dropped.
  unfoldable pub try_pin_resident_frame : ℕ → BufferTag → Bool → Call Disk R Bool
  unfolding check_pinned
  try_pin_resident_frame frame tag record_access m =
      check_pinned frame tag record_access (Ops.try_pin_resident (word_of m frame)) m

  abbrev pub probed : ℕ → BufferTag → Bool → Manager Disk R → ResidentProbe
  probed frame tag is_pinned m =
      if is_pinned
      then pinned frame
      else if is_loading_tag frame tag m
      then loading frame
      else absent

  unfoldable pub probe_resident : BufferTag → Bool → Call Disk R ResidentProbe
  unfolding try_pin_resident_frame is_loading_tag
  probe_resident tag record_access m = elim (lookup_frame_id m.page_table tag) [
    | none ↦ some (m, absent)
    | some frame ↦
        (do
          is_pinned ← try_pin_resident_frame frame tag record_access
          λ m'. some (m', probed frame tag is_pinned m'))
          m
  ]

  unfoldable pub wait_for_load : ℕ → BufferTag → Call Disk R (Unit {0})
  unfolding is_loading_tag
  wait_for_load frame tag = wait_while (is_loading_tag frame tag)

  -- buffer_manager_cleaner.cc. Waking the cleaner's thread changes no state of the manager.
  abbrev pub in_cleaner :
      Bool → (Cleaner.Cleaner → Cleaner.Cleaner) → Manager Disk R → Manager Disk R
  in_cleaner called change m = record m {
    cleaner = if called then Option.map change m.cleaner else m.cleaner;
  }

  unfoldable pub reset_cleaner_candidate : ℕ → Manager Disk R → Manager Disk R
  reset_cleaner_candidate frame =
      in_cleaner (not (leb env.pool_size frame)) (λ c. Cleaner.reset_candidate c frame)

  abbrev pub enqueue_if : Bool → ℕ → Manager Disk R → Manager Disk R
  enqueue_if wanted frame =
      in_cleaner (wanted && not (leb env.pool_size frame)) (λ c. Cleaner.enqueue_candidate c frame)

  unfoldable pub maybe_enqueue_cleaner_candidate : ℕ → Manager Disk R → Manager Disk R
  maybe_enqueue_cleaner_candidate frame = enqueue_if true frame

  unfoldable pub should_seed_cleaner_candidate : ℕ → Manager Disk R → Bool
  unfolding should_queue_cleaner_candidate
  should_seed_cleaner_candidate frame m =
      if leb env.pool_size frame then false else should_queue_cleaner_candidate (word_of m frame)

  -- The loop of SeedCleanerCandidates over the frames from `frame` on.
  unfoldable pub seed_from : ℕ → ℕ → Manager Disk R → Manager Disk R
  unfolding should_seed_cleaner_candidate maybe_enqueue_cleaner_candidate
  seed_from zero frame m = m
  seed_from (suc left) frame m =
      seed_from left (frame + 1) (
        if should_seed_cleaner_candidate frame m
        then maybe_enqueue_cleaner_candidate frame m
        else m)

  unfoldable pub seed_cleaner_candidates : Manager Disk R → Manager Disk R
  unfolding seed_from
  seed_cleaner_candidates m =
      if env.enable_background_cleaner then seed_from env.pool_size 0 m else m

  -- buffer_manager_handle.cc.
  unfoldable pub release_frame : ℕ → Manager Disk R → Manager Disk R
  release_frame frame m =
      enqueue_if (last_dirty_pin (outcome none frame Ops.unpin m)) frame (on_word frame Ops.unpin m)

  unfoldable pub mark_handle_dirty : ℕ → ℕ → Manager Disk R → Manager Disk R
  mark_handle_dirty frame lsn m = record (change_descriptor frame (mark_descriptor lsn) m) {
    dirty_page_count =
        if value_or_false (outcome none frame Ops.mark_dirty m)
        then (m.dirty_page_count + 1) % 2 ^ 64
        else m.dirty_page_count;
  }

  -- What the two Make functions do to the word; the handle itself is in BufferHandle.
  unfoldable pub acquire_shared : ℕ → Call Disk R (Unit {0})
  acquire_shared frame = do
    wait_while (λ m. Ops.acquire_shared_blocked (word_of m frame))
    update (on_word frame Ops.try_acquire_shared)

  unfoldable pub acquire_exclusive : ℕ → Call Disk R (Unit {0})
  acquire_exclusive frame = do
    wait_while (λ m. Ops.acquire_exclusive_blocked (word_of m frame))
    update (on_word frame Ops.try_acquire_exclusive)

  unfoldable pub release_shared_handle : ℕ → Manager Disk R → Manager Disk R
  unfolding release_frame
  release_shared_handle frame m = release_frame frame (on_word frame Ops.release_shared m)

  -- ReleaseExclusive moves the version before the word.
  unfoldable pub release_exclusive_handle : ℕ → Manager Disk R → Manager Disk R
  unfolding release_frame bump_version
  release_exclusive_handle frame m =
      release_frame frame
        (change_descriptor frame (λ d. operate Ops.release_exclusive (bump_version d)) m)
