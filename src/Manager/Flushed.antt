-- ===== src/Manager/Flushed.antt =====
-- FlushFrameWithStableSource of src/cpp/lib/buffer/buffer_manager_flush.cc, which FlushBuffer on a shared
-- handle calls, from its first round to its end.
use tele_path.Prelude.{
  store_self, ℕ, ◌<◌, ◌≡◌, refl, sym, ap, ◌∙◌, subst, true, false, none, some, List, [], ◌∷◌, ◌++◌,
  if◌then◌else◌, leb, arith, Bool-cases, inl, inr,
}
use tele_path.Common.Types.{BufferTag}
use tele_path.Common.Status.{Status, ok, error}
use tele_path.Common.Results.{value, failure}
use tele_path.FrameControl.Ops
use tele_path.FrameControl.Ops.{QueueOutcome, queued, not_dirty, pending, pinned}
use tele_path.Manager.Types.{
  Page, Event, Env, Task, Manager, Descriptor, after, operate, word_of, observe,
}
use tele_path.Manager.Frames.{load_tag}
use tele_path.Common.Chains.{elem}
use tele_path.Manager.Files.{add_file, record_written_file, record_in, note_local_written_file}
use tele_path.Manager.Flushing.{succeeded, queue_writeback, queued_descriptor, failed_descriptor}
use tele_path.Manager.Writeback.{
  completed_descriptor, begin_flush_task, finish_task, complete_flush, note_flushed,
  finalize_flush_task, write_task, write_flush_task_direct,
}
use tele_path.Manager.Rounds.{
  wrote, flush_rounds, write_created, foreground_flush_round, run_foreground_flush,
  flush_frame_with_stable_source,
}
use tele_path.Manager.FlushWords.{IsIdle, queues-dirty, skips-clean, written_back-IsIdle}
use tele_path.Manager.FlushRounds.{bind-some, if-false, claimed, task_of, dirty_round, clean_round}

elem_append : (file : ℕ) (files : List ℕ) → elem file (files ++ (file ∷ [])) ≡ true
elem_append file [] = ground arith
elem_append file (other ∷ files) = let rest = elem_append file files in ground arith

elem-add_file : (file : ℕ) (files : List ℕ) → elem file (add_file file files) ≡ true
elem-add_file file files = elim (Bool-cases (elem file files)) [
  | inl there ↦ rw (there, there) refl
  | inr new ↦ rw new (elem_append file files)
]

module _ {Disk R : Type 0} (env : Env Disk R) (f : ℕ) (page : Page) where
  -- What the end of a task leaves in its frame and on disk, in a pool that no other process shares.
  finishes :
      (m : Manager Disk R) (task : Task) (status : Status)
      → m.shared_files ≡ none
      → task.flush.frame_id ≡ f
      → task.flush.clear_dirty_on_success ≡ true
      → let done = finalize_flush_task env task status m in
        (word_of done f
          ≡ after (word_of m f) (Ops.complete_writeback_word (succeeded status) (word_of m f)))
        × (done.disk ≡ m.disk)
        × (status ≡ ok → elem task.flush.tag.file_id done.written_files ≡ true)
  unfolding finalize_flush_task finish_task complete_flush note_flushed record_written_file
      record_in note_local_written_file completed_descriptor failed_descriptor
  finishes m task ok alone here clears =
      rw (alone, here, clears)
        (
          ap (λ (d : Descriptor). d.control) (store_self m.descriptors f _),
          refl,
          λ is_ok. elem-add_file task.flush.tag.file_id m.written_files,
        )
  finishes m task (error e) alone here clears =
      rw (here, clears)
        (
          ap (λ (d : Descriptor). d.control) (store_self m.descriptors f _),
          refl,
          λ is_ok. absurd (ground arith),
        )

  claimed-fields :
      (m : Manager Disk R)
      → (word_of (claimed env f page m) f
          ≡ after (word_of m f) (Ops.try_queue_writeback false (word_of m f)))
        × (load_tag env (claimed env f page m) f ≡ load_tag env m f)
  unfolding queue_writeback queued_descriptor
  claimed-fields m =
      let d = queued_descriptor (operate (Ops.try_queue_writeback false) (m.descriptors f)) in
      let here = store_self m.descriptors f d in
      (ap (λ (d : Descriptor). d.control) here, ap (λ (d : Descriptor). d.tag) here)

  -- What the frame and the disk are after a write of its page.
  abbrev pub IsFlushed : Manager Disk R → Disk × Status → Manager Disk R → Status → Type 0
  IsFlushed m (disk, ok) m' result =
      (result ≡ ok)
      × IsIdle (word_of m' f) 0
      × (m'.disk ≡ disk)
      × (elem (load_tag env m f).file_id m'.written_files ≡ true)
  IsFlushed m (disk, error e) m' result =
      (result ≡ error e) × IsIdle (word_of m' f) 1 × (m'.disk ≡ disk)

  -- The state once the task has begun.
  unfoldable begun : Manager Disk R → Manager Disk R
  unfolding begin_flush_task
  begun m =
      begin_flush_task env (task_of env f page m) (
        observe (Event.flush_task_scheduled (task_of env f page m).flush.tag)
          (claimed env f page m))

  -- And once it has ended.
  abbrev ended : Manager Disk R → Disk × Status → Manager Disk R
  ended m (disk, status) =
      finalize_flush_task env (task_of env f page m) status (record (begun m) { disk = disk })

  begun-word :
      (m : Manager Disk R)
      → word_of (begun m) f ≡ (
          let word = after (word_of m f) (Ops.try_queue_writeback false (word_of m f)) in
          after word (Ops.begin_writeback word))
  unfolding begun begin_flush_task queue_writeback queued_descriptor
  begun-word m =
      let (word, tag) = claimed-fields m in
      ap (λ (d : Descriptor). d.control)
        (store_self (claimed env f page m).descriptors f
          (operate Ops.begin_writeback ((claimed env f page m).descriptors f)))
      ∙ ap (λ v. after v (Ops.begin_writeback v)) word

  ends :
      (m : Manager Disk R) (disk : Disk) (status : Status)
      → m.shared_files ≡ none
      → IsIdle (word_of m f) 1
      → let m' = ended m (disk, status) in
        IsIdle (word_of m' f) (if succeeded status then 0 else 1)
        × (m'.disk ≡ disk)
        × (status ≡ ok → elem (load_tag env m f).file_id m'.written_files ≡ true)
  unfolding begun begin_flush_task queue_writeback
  ends m disk status alone idle =
      let (word, kept, recorded) =
        finishes (record (begun m) { disk = disk }) (task_of env f page m) status alone refl refl in
      let (queued_word, tag) = claimed-fields m in
      let whole =
        word
        ∙ ap (λ v. after v (Ops.complete_writeback_word (succeeded status) v)) (begun-word m) in
      (
        subst (λ v. IsIdle v (if succeeded status then 0 else 1)) (sym whole)
            (written_back-IsIdle (succeeded status) (word_of m f) idle),
        kept,
        λ is_ok.
            subst (λ (t : BufferTag). elem t.file_id (ended m (disk, status)).written_files ≡ true)
              tag (recorded is_ok),
      )

  round_writes :
      (m : Manager Disk R) (r : Disk × Status)
      → f < env.pool_size
      → env.queued_writeback ≡ false
      → env.pre_write_hook ≡ none
      → IsIdle (word_of m f) 1
      → env.write m.disk (load_tag env m f) page ≡ r
      → foreground_flush_round env f (some page) m ≡ some (ended m r, wrote r.1)
  unfolding write_created write_flush_task_direct write_task begun queue_writeback
  round_writes m r low direct no_hook idle e =
      let (word, tag) = claimed-fields m in
      dirty_round env f page m low direct no_hook (queues-dirty (word_of m f) idle)
      ∙ ap (λ (r : Disk × Status). some (ended m r, wrote r.1))
          (ap (λ t. env.write m.disk t page) tag ∙ e)

  runs :
      (m : Manager Disk R) (disk : Disk) (status : Status)
      → f < env.pool_size
      → env.queued_writeback ≡ false
      → env.pre_write_hook ≡ none
      → m.shared_files ≡ none
      → IsIdle (word_of m f) 1
      → env.write m.disk (load_tag env m f) page ≡ (disk, status)
      → run_foreground_flush env flush_rounds f (some page) m
        ≡ some (ended m (disk, status), status)
  unfolding run_foreground_flush
  runs m disk ok low direct no_hook alone idle e =
      let (clean, kept, recorded) = ends m disk ok alone idle in
      let m' = ended m (disk, ok) in
      bind-some (foreground_flush_round env f (some page)) _ m m' (value true)
        (round_writes m (disk, ok) low direct no_hook idle e)
      ∙ bind-some (foreground_flush_round env f (some page)) _ m' m' (value false)
          (clean_round env f page m' low direct (skips-clean (word_of m' f) clean))
  runs m disk (error x) low direct no_hook alone idle e =
      bind-some (foreground_flush_round env f (some page)) _ m (ended m (disk, error x)) (failure x)
        (round_writes m (disk, error x) low direct no_hook idle e)

  flushed :
      (m : Manager Disk R) (disk : Disk) (status : Status)
      → m.shared_files ≡ none
      → IsIdle (word_of m f) 1
      → IsFlushed m (disk, status) (ended m (disk, status)) status
  flushed m disk ok alone idle =
      let (clean, kept, recorded) = ends m disk ok alone idle in (refl, clean, kept, recorded refl)
  flushed m disk (error e) alone idle =
      let (dirty, kept, recorded) = ends m disk (error e) alone idle in (refl, dirty, kept)

  -- In a pool that no other process shares, without a hook and with writes by the caller, a flush of a
  -- dirty page that is resident and has neither a writeback nor an exclusive latch, from a copy of it,
  -- ends within two rounds. When the write succeeds the flush does, the page is clean, and its file
  -- waits for a sync; when the write fails, the flush returns its error and the page stays dirty.
  -- Either way the disk is what the write of the copy under the page's tag left, and no writeback is
  -- pending.
  pub flush-IsFlushed :
      (m : Manager Disk R)
      → f < env.pool_size
      → env.queued_writeback ≡ false
      → env.pre_write_hook ≡ none
      → m.shared_files ≡ none
      → IsIdle (word_of m f) 1
      → (done : Manager Disk R × Status) × (flush_frame_with_stable_source env f (some page) m
          ≡ some done)
        × IsFlushed m (env.write m.disk (load_tag env m f) page) done.0 done.1
  unfolding flush_frame_with_stable_source
  flush-IsFlushed m low direct no_hook alone idle =
      let (disk, status) = env.write m.disk (load_tag env m f) page in
      let inside : leb env.pool_size f ≡ false = ground arith in
      (
        (ended m (disk, status), status),
        if-false (leb env.pool_size f) _ _ m inside
            ∙ runs m disk status low direct no_hook alone idle refl,
        flushed m disk status alone idle,
      )
