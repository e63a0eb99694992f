-- ===== src/Manager/FileFrames.antt =====
-- The files that wait for a sync, in src/cpp/lib/buffer/buffer_manager_lifecycle.cc, are kept apart from
-- the frames.
use tele_path.Prelude.{
  ℕ, ◌≡◌, inl, inr, refl, ◌∙◌, Bool, true, false, Option, none, some, List, [], ◌∷◌, length, ◌==◌,
  if◌then◌else◌, Bool-cases,
}
use tele_path.Common.Chains.{elem}
use tele_path.Common.Status.{Status, ok, error}
use tele_path.Manager.Types.{Env, Manager, Task}
use tele_path.Manager.Files.{
  record_in, record_written_file, note_local_written_file, note_written_file, note_written_files,
  after_sync, sync_files,
}
use tele_path.Manager.Writeback.{note_flushed}

module _ {Disk R : Type 0} where
  -- The two managers agree on all but files, disk and events.
  abbrev pub SameFrames : Manager Disk R → Manager Disk R → Type 0
  SameFrames m m' =
      (m'.descriptors ≡ m.descriptors)
      × (m'.page_table ≡ m.page_table)
      × (m'.free_list ≡ m.free_list)
      × (m'.frames ≡ m.frames)
      × (m'.dirty_page_count ≡ m.dirty_page_count)
      × (m'.cleaner ≡ m.cleaner)

  pub SameFrames-refl : (m : Manager Disk R) → SameFrames m m
  SameFrames-refl m = (refl, refl, refl, refl, refl, refl)

  pub SameFrames-trans :
      (m m' m'' : Manager Disk R) → SameFrames m m' → SameFrames m' m'' → SameFrames m m''
  SameFrames-trans m m' m'' s t = (t.0 ∙ s.0, t.1 ∙ s.1, t.2 ∙ s.2, t.3 ∙ s.3, t.4 ∙ s.4, t.5 ∙ s.5)

module _ {Disk R : Type 0} (env : Env Disk R) where
  record_in-SameFrames :
      (shared : Option (List ℕ)) (file : ℕ) (m : Manager Disk R)
      → SameFrames m (record_in env shared file m).0
  unfolding record_in
  record_in-SameFrames none file m = SameFrames-refl m
  record_in-SameFrames (some files) file m = elim (Bool-cases (elem file files)) [
    | inl known ↦ rw known (SameFrames-refl m)
    | inr new ↦ elim (Bool-cases (length files == env.shared_capacity)) [
      | inl full ↦ rw (new, full) (SameFrames-refl m)
      | inr room ↦ rw (new, room) (SameFrames-refl m)
    ]
  ]

  if-SameFrames :
      (b : Bool) (m m' m'' : Manager Disk R)
      → SameFrames m m'
      → SameFrames m m''
      → SameFrames m (if b then m' else m'')
  if-SameFrames true m m' m'' s t = s
  if-SameFrames false m m' m'' s t = t

  note-SameFrames : (file : ℕ) (m : Manager Disk R) → SameFrames m (note_written_file env file m)
  unfolding note_written_file record_written_file note_local_written_file
  note-SameFrames file m =
      let noted = record_in-SameFrames m.shared_files file m in
      let more = note_local_written_file env file (record_in env m.shared_files file m).0 in
      if-SameFrames (record_in env m.shared_files file m).1 m
        (record_in env m.shared_files file m).0 more noted noted

  notes-SameFrames :
      (files : List ℕ) (m : Manager Disk R) → SameFrames m (note_written_files env files m)
  unfolding note_written_files
  notes-SameFrames [] m = SameFrames-refl m
  notes-SameFrames (file ∷ files) m =
      SameFrames-trans m (note_written_file env file m)
        (note_written_files env files (note_written_file env file m)) (note-SameFrames file m)
        (notes-SameFrames files (note_written_file env file m))

  after_sync-SameFrames :
      (files : List ℕ) (m : Manager Disk R) (status : Status)
      → SameFrames m (after_sync env files m status)
  after_sync-SameFrames files m ok = SameFrames-refl m
  after_sync-SameFrames files m (error e) = notes-SameFrames files m

  pub sync_files-SameFrames :
      (files : List ℕ) (m : Manager Disk R) → SameFrames m (sync_files env files m).0
  unfolding sync_files
  sync_files-SameFrames [] m = SameFrames-refl m
  sync_files-SameFrames (file ∷ files) m =
      let (disk, status) = env.sync m.disk (file ∷ files) in
      after_sync-SameFrames (file ∷ files) (record m { disk = disk }) status

  pub note_flushed-SameFrames :
      (task : Task) (m : Manager Disk R) → SameFrames m (note_flushed env task m)
  unfolding note_flushed record_written_file
  note_flushed-SameFrames task m =
      let file = task.flush.tag.file_id in
      let noted = record_in-SameFrames m.shared_files file m in
      let m' = (record_in env m.shared_files file m).0 in
      let synced = (sync_files env (file ∷ []) m').0 in
      if-SameFrames (record_in env m.shared_files file m).1 m m' synced noted
        (SameFrames-trans m m' synced noted (sync_files-SameFrames (file ∷ []) m'))
