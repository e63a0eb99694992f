-- ===== src/Manager/Files.antt =====
-- src/cpp/lib/buffer/buffer_manager_lifecycle.cc, the failed state and the files that wait for a sync,
-- and SyncFile of buffer_manager.cc.
use tele_path.Prelude.{
  ℕ, Bool, true, false, Option, none, some, List, [], ◌∷◌, ◌++◌, length, ◌==◌, if◌then◌else◌,
}
use mathlib.Core.Option
use tele_path.Common.Chains.{elem, remove}
use tele_path.Common.Status.{Error, Status, ok, error}
use tele_path.Common.Results.{failed, unavailable}
use tele_path.Manager.Types.{Env, Manager}

-- `if (std::find(...) == end) push_back(...)`.
abbrev pub add_file : ℕ → List ℕ → List ℕ
add_file file files = if elem file files then files else files ++ (file ∷ [])

-- The files of the second list go behind those of the first that are not there yet.
abbrev pub add_files : List ℕ → List ℕ → List ℕ
add_files files [] = files
add_files files (file ∷ more) = add_files (add_file file files) more

module _ {Disk R : Type 0} (env : Env Disk R) where
  unfoldable pub check_usable : Manager Disk R → Status
  check_usable m = elim (m.failure) [
    | some cause ↦ error (failed "buffer manager is in the failed state")
    | none ↦ if m.closed then error (unavailable "buffer manager is closed") else ok
  ]

  unfoldable pub enter_failed_state : Error → Manager Disk R → Manager Disk R
  enter_failed_state cause m = elim (m.failure) [
    | some first ↦ m
    | none ↦ record m { failure = some cause }
  ]

  unfoldable pub note_local_written_file : ℕ → Manager Disk R → Manager Disk R
  note_local_written_file file m = record m { written_files = add_file file m.written_files }

  -- With the list of the segment that this process shares, if it is in the cross-process mode.
  unfoldable pub record_in : Option (List ℕ) → ℕ → Manager Disk R → Manager Disk R × Bool
  unfolding note_local_written_file
  record_in none file m = (note_local_written_file file m, true)
  record_in (some files) file m =
      if elem file files
      then (m, true)
      else if length files == env.shared_capacity
      then (m, false)
      else (record m { shared_files = some (files ++ (file ∷ [])) }, true)

  unfoldable pub record_written_file : ℕ → Manager Disk R → Manager Disk R × Bool
  unfolding record_in
  record_written_file file m = record_in m.shared_files file m

  unfoldable pub note_written_file : ℕ → Manager Disk R → Manager Disk R
  unfolding record_written_file note_local_written_file
  note_written_file file m =
      let (noted, recorded) = record_written_file file m in
      if recorded then noted else note_local_written_file file noted

  unfoldable pub note_written_files : List ℕ → Manager Disk R → Manager Disk R
  unfolding note_written_file
  note_written_files [] m = m
  note_written_files (file ∷ files) m = note_written_files files (note_written_file file m)

  abbrev pub after_sync : List ℕ → Manager Disk R → Status → Manager Disk R
  after_sync files m ok = m
  after_sync files m (error e) = note_written_files files m

  unfoldable pub sync_files : List ℕ → Manager Disk R → Manager Disk R × Status
  unfolding note_written_files
  sync_files [] m = (m, ok)
  sync_files (file ∷ files) m =
      let (disk, status) = env.sync m.disk (file ∷ files) in
      (after_sync (file ∷ files) (record m { disk = disk }) status, status)

  -- The files of both lists, which are emptied.
  unfoldable pub pending_files : Manager Disk R → List ℕ
  pending_files m = elim (m.shared_files) [
    | none ↦ m.written_files
    | some files ↦ add_files m.written_files files
  ]

  unfoldable pub sync_written_files : Manager Disk R → Manager Disk R × Status
  unfolding sync_files pending_files
  sync_written_files m =
      let emptied = record m {
        written_files = [];
        shared_files = Option.map (λ files. []) m.shared_files;
      } in
      sync_files (pending_files m) emptied

  unfoldable pub sync_file : ℕ → Manager Disk R → Manager Disk R × Status
  unfolding check_usable sync_files
  sync_file file m =
      let erased = record m {
        written_files = remove file m.written_files;
        shared_files = Option.map (remove file) m.shared_files;
      } in
      elim (check_usable m) [ error e ↦ (m, error e) | ok ↦ sync_files (file ∷ []) erased ]
