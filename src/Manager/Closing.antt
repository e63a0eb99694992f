-- ===== src/Manager/Closing.antt =====
-- Close and ExportSnapshot of src/cpp/lib/buffer/buffer_manager.cc, and StopFlushPipeline and
-- SeedFreeFrames of buffer_manager_lifecycle.cc.
use tele_path.Prelude.{
  ℕ, zero, suc, ◌+◌, Bool, true, false, ◌&&◌, Option, none, some, List, [], ◌∷◌, ◌==◌,
  if◌then◌else◌,
}
use tele_path.Common.Types.{BufferTag}
use tele_path.Common.Status.{Status, ok, error}
use tele_path.Common.Results.{invalid_argument}
use tele_path.FrameControl.Word
use tele_path.FrameControl.Word.{BufferFrameState}
use tele_path.FreeList.Ops as Free
use tele_path.PageTable.Table.{empty_table}
use tele_path.Flush.Cleaner.{Cleaner}
use tele_path.Manager.Types.{
  Env, Manager, Descriptor, new_descriptor, Call, pure, update, ◌>>=◌, ◌>>◌,
}
use tele_path.Manager.Frames.{load_tag, is_loading_tag, wait_for_load}
use tele_path.Manager.Files.{check_usable}
use tele_path.Manager.Pool.{frame_rec_lsn, flush_all, has_pinned_frame}

-- FrameSnapshot.
pub record FrameSnapshot : Type 0 where
  pub frame_id : ℕ
  pub frame_state : ℕ
  pub tag : BufferTag
  pub pin_count : ℕ
  pub dirty_generation : ℕ
  pub is_valid : Bool
  pub is_dirty : Bool
  pub io_in_flight : Bool
  pub flush_queued : Bool
  pub flush_in_flight : Bool
  pub rec_lsn : ℕ

-- BufferPoolSnapshot.
pub record PoolSnapshot : Type 0 where
  pub pool_size : ℕ
  pub page_size : ℕ
  pub dirty_page_count : ℕ
  pub flush_queued_count : ℕ
  pub flush_in_flight_count : ℕ
  pub frames : List FrameSnapshot

unfoldable pub snapshot_frame : ℕ → Descriptor → FrameSnapshot
unfolding frame_rec_lsn
snapshot_frame frame d = record {
  frame_id = frame;
  frame_state = Word.state d.control;
  tag = d.tag;
  pin_count = Word.pins d.control;
  dirty_generation = d.version;
  is_valid = Word.is_resident d.control;
  is_dirty = Word.is_dirty d.control;
  io_in_flight = Word.state d.control == Word.state_code BufferFrameState.loading;
  flush_queued = Word.has_any d.control Word.writeback_queued;
  flush_in_flight = Word.has_any d.control Word.writeback_active;
  rec_lsn = frame_rec_lsn d;
}

abbrev pub add_snapshot : FrameSnapshot → PoolSnapshot → PoolSnapshot
add_snapshot f s = record s {
  flush_queued_count = if f.flush_queued then s.flush_queued_count + 1 else s.flush_queued_count;
  flush_in_flight_count =
      if f.flush_in_flight then s.flush_in_flight_count + 1 else s.flush_in_flight_count;
  frames = f ∷ s.frames;
}

-- What InitializeKernelMemory places for a private or a new shared pool, with no frame on the free
-- list yet. The state of the replacer, the disk and the cleaner are the caller's.
unfoldable pub new_manager :
    {Disk R : Type 0}
    → Env Disk R
    → ℕ
    → Option Cleaner
    → Option (List ℕ)
    → R
    → Disk
    → Manager Disk R
new_manager env stripe_count cleaner shared_files replacer disk = record {
  descriptors = λ frame. new_descriptor;
  page_table = empty_table env.pool_size stripe_count;
  free_list = Free.empty_list;
  frames = λ frame. [];
  dirty_page_count = 0;
  cleaner = cleaner;
  written_files = [];
  shared_files = shared_files;
  failure = none;
  closed = false;
  stopped = false;
  replacer = replacer;
  disk = disk;
  events = [];
}

module _ {Disk R : Type 0} (env : Env Disk R) where
  -- The loop of ExportSnapshot over `left` descriptors from `frame` on.
  unfoldable pub snapshot_from : ℕ → ℕ → ℕ → Manager Disk R → PoolSnapshot
  unfolding snapshot_frame
  snapshot_from page_size zero frame m = record {
    pool_size = env.pool_size;
    page_size = page_size;
    dirty_page_count = m.dirty_page_count;
    flush_queued_count = 0;
    flush_in_flight_count = 0;
    frames = [];
  }
  snapshot_from page_size (suc left) frame m =
      add_snapshot (snapshot_frame frame (m.descriptors frame))
        (snapshot_from page_size left (frame + 1) m)

  unfoldable pub export_snapshot : ℕ → Manager Disk R → PoolSnapshot
  unfolding snapshot_from
  export_snapshot page_size m = snapshot_from page_size env.pool_size 0 m

  -- The loop of Close over frames that are loading.
  unfoldable pub wait_for_loads : ℕ → ℕ → Call Disk R (Unit {0})
  unfolding is_loading_tag wait_for_load
  wait_for_loads zero frame = pure tt
  wait_for_loads (suc left) frame =
      let rest = wait_for_loads left (frame + 1) in
      (do λ m. wait_for_load env frame (load_tag env m frame) m; rest)

  -- The flush workers, the cleaner's thread and the I/O engine end; enqueueing then fails.
  unfoldable pub stop_flush_pipeline : Manager Disk R → Manager Disk R
  stop_flush_pipeline m = record m { stopped = true }

  abbrev pub has_failed : Manager Disk R → Bool
  has_failed m = elim (m.failure) [ none ↦ false | some cause ↦ true ]

  abbrev pub is_private : Manager Disk R → Bool
  is_private m = elim (m.shared_files) [ none ↦ true | some files ↦ false ]

  abbrev pub flush_if_usable : Call Disk R Status
  flush_if_usable m = elim (check_usable env m) [
    | error e ↦ some (m, error e)
    | ok ↦ flush_all env m
  ]

  abbrev pub finish_close : Status → Manager Disk R → Manager Disk R
  finish_close ok m = stop_flush_pipeline (record m { closed = true })
  finish_close (error e) m =
      if has_failed m then stop_flush_pipeline (record m { closed = true }) else m

  abbrev pub still_pinned : Status
  still_pinned = error (invalid_argument "pages are still pinned by handles or read operations")

  -- No prefetch is in flight and no thread observes.
  unfoldable pub close : Call Disk R Status
  unfolding wait_for_loads stop_flush_pipeline
  close m = elim (m.closed) [
    | true ↦ some (m, ok)
    | false ↦
        (do
          wait_for_loads env.pool_size 0
          λ m'. elim (is_private m' && has_pinned_frame env m') [
            | true ↦ some (m', still_pinned)
            | false ↦ (do status ← flush_if_usable; update (finish_close status); pure status) m'
          ])
          m
  ]

  -- SeedFreeFrames over `left` frames from `frame` on; the number of a frame never changes.
  unfoldable pub seed_free_from : ℕ → ℕ → Manager Disk R → Manager Disk R
  seed_free_from zero frame m = m
  seed_free_from (suc left) frame m =
      seed_free_from left (frame + 1) (record m { free_list = Free.push m.free_list frame })

  unfoldable pub seed_free_frames : Manager Disk R → Manager Disk R
  unfolding seed_free_from
  seed_free_frames = seed_free_from env.pool_size 0
