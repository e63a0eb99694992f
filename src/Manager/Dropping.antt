-- ===== src/Manager/Dropping.antt =====
-- DropFileBuffers of src/cpp/lib/buffer/buffer_manager_eviction.cc.
use tele_path.Prelude.{
  ℕ, zero, suc, ◌+◌, ◌-◌, ◌%◌, ◌^◌, Bool, true, false, not, ◌||◌, none, some, ◌==◌, ltb,
  if◌then◌else◌,
}
use tele_path.Common.Types.{BufferTag, no_tag, invalid_lsn}
use tele_path.Common.Status.{Status, ok, error}
use tele_path.Common.Results.{invalid_argument, or_else}
use tele_path.FrameControl.Word
use tele_path.FrameControl.Word.{BufferFrameState}
use tele_path.FrameControl.Ops
use tele_path.FrameControl.Ops.{DiscardOutcome}
use tele_path.PageTable.Ops as Entries
use tele_path.Manager.Types.{
  Env, Manager, Descriptor, Call, change_descriptor, word_of, on_word, outcome, wait_while, pure,
  update, ◌>>=◌, ◌>>◌,
}
use tele_path.Manager.Frames.{
  load_tag, store_tag, wait_for_load, release_frame, try_pin_resident_frame,
}
use tele_path.Manager.Files.{check_usable}
use tele_path.Manager.Flushing.{wait_for_pending_flush}
use tele_path.Manager.Pool.{if_usable}
use tele_path.Manager.Reserve.{release_free_frame, forget_in_replacer}

abbrev pub forget_lsns : Descriptor → Descriptor
forget_lsns d = record d { rec_lsn = invalid_lsn; writeback_rec_lsn = invalid_lsn }

module _ {Disk R : Type 0} (env : Env Disk R) where
  -- The end of DropFileBuffers on a frame whose word it has discarded.
  unfoldable pub finish_discard : ℕ → BufferTag → ℕ → Manager Disk R → Manager Disk R
  unfolding release_free_frame
  finish_discard frame tag previous m =
      let forgotten = record (change_descriptor frame forget_lsns m) {
        dirty_page_count =
            if Word.is_dirty previous
            then (m.dirty_page_count + (2 ^ 64 - 1)) % 2 ^ 64
            else m.dirty_page_count;
        page_table = Entries.remove m.page_table tag frame;
      } in
      release_free_frame env frame
        (store_tag env frame no_tag (forget_in_replacer env frame forgotten))

  -- Whether DropFileBuffers has nothing to do with a frame.
  abbrev pub is_outside : ℕ → ℕ → ℕ → Manager Disk R → Bool
  is_outside file_id first_block frame m =
      Word.state (word_of m frame) == Word.state_code BufferFrameState.free
      || not ((load_tag env m frame).file_id == file_id)
      || ltb (load_tag env m frame).block_id first_block

  abbrev pub dropped_in_use : Status
  dropped_in_use = error (invalid_argument "a page in the dropped range is in use")

  -- What follows the pin: `again` is the next round of the loop.
  unfoldable pub discard_pinned : Call Disk R Status → ℕ → BufferTag → Call Disk R Status
  unfolding finish_discard wait_for_pending_flush
  discard_pinned again frame tag m =
      let (result, previous) = outcome (DiscardOutcome.busy, 0) frame Ops.try_discard_pinned m in
      elim result [
        | DiscardOutcome.writeback ↦
            (do update (release_frame env frame); ignored ← wait_for_pending_flush env frame; again)
              m
        | DiscardOutcome.latched ↦
            (do
              wait_while (λ m'. Word.has_any (word_of m' frame) Word.latch_mask)
              update (release_frame env frame)
              again)
              m
        | DiscardOutcome.busy ↦ some (release_frame env frame m, dropped_in_use)
        | DiscardOutcome.discarded ↦
            some (finish_discard frame tag previous (on_word frame Ops.try_discard_pinned m), ok)
      ]

  -- The inner loop, with its rounds as fuel.
  unfoldable pub drop_frame : ℕ → ℕ → ℕ → ℕ → Call Disk R Status
  unfolding discard_pinned try_pin_resident_frame wait_for_load
  drop_frame zero file_id first_block frame m = none
  drop_frame (suc fuel) file_id first_block frame m =
      let again = drop_frame fuel file_id first_block frame in
      let tag = load_tag env m frame in
      elim (is_outside file_id first_block frame m) [
        | true ↦ some (m, ok)
        | false ↦ elim (Word.state (word_of m frame) == Word.state_code BufferFrameState.loading) [
          | true ↦ (do wait_for_load env frame tag; again) m
          | false ↦
              (do
                is_pinned ← try_pin_resident_frame env frame tag false
                elim is_pinned [ true ↦ discard_pinned again frame tag | false ↦ again ])
                m
        ]
      ]

  -- The last frame that is in use gives the result, as all its errors are the same.
  unfoldable pub drop_from : ℕ → ℕ → ℕ → ℕ → ℕ → Call Disk R Status
  unfolding drop_frame
  drop_from fuel zero frame file_id first_block = pure ok
  drop_from fuel (suc left) frame file_id first_block = do
    status ← drop_frame fuel file_id first_block frame
    rest ← drop_from fuel left (frame + 1) file_id first_block
    pure (or_else status rest)

  unfoldable pub drop_file_buffers : ℕ → ℕ → ℕ → Call Disk R Status
  unfolding drop_from check_usable
  drop_file_buffers fuel file_id first_block =
      if_usable env (drop_from fuel env.pool_size 0 file_id first_block)
