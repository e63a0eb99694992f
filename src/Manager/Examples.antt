-- ===== src/Manager/Examples.antt =====
-- Tests of the buffer manager, and its theorems at concrete inputs: a pool of two frames on a disk whose
-- pages hold the number of their block.
use tele_path.Prelude.{
  ◌%◌, ℕ, ◌+◌, ◌^◌, ◌<◌, ◌≡◌, inl, refl, true, false, none, some, List, [], ◌∷◌, ◌++◌,
  if◌then◌else◌, arith, ◌==◌,
}
use tele_path.Common.Types.{BufferTag}
use tele_path.Common.Status.{Status, ok, error}
use tele_path.Common.Results.{Result, io_error}
use tele_path.FrameControl.Fields.{view}
use tele_path.FrameControl.Ops
use tele_path.FrameControl.Ops.{ReserveOutcome}
use tele_path.FrameControl.Word.{is_resident, is_dirty}
use tele_path.PageTable.Table.{empty_table}
use tele_path.Manager.Types.{Event, Env, Manager, Descriptor, outcome, new_descriptor, word_of}
use tele_path.Manager.Reserve.{Reservation}
use tele_path.Manager.Loading.{
  zero_and_lock, publish_loaded_frame, complete_reservation, PinnedFrame,
}
use tele_path.Manager.Frames.{mark_handle_dirty, load_tag, release_frame}
use tele_path.Manager.Rounds.{flush_frame_with_stable_source}
use tele_path.Manager.FlushWords.{IsIdle}
use tele_path.Manager.Flushed.{IsFlushed, flush-IsFlushed}
use tele_path.Manager.Telemetry.{
  Counter, Call, no_counts, counters_of, record_calls, read_counters_snapshot,
}
use tele_path.Manager.Counts.{raised, snapshot-raised}
use tele_path.Manager.Published.{IsReserved}
use tele_path.Manager.Loads.{IsLoaded, complete_reservation-IsLoaded}
use tele_path.Manager.Closing.{new_manager, seed_free_frames}
use tele_path.Manager.Eviction.{try_reserve-is_evictable}
use tele_path.Manager.Reserve.{try_reserve_frame_for_tag, is_evictable}
use tele_path.Manager.RecLsn.{writeback-frame_rec_lsn, min_rec_lsn-IsLeast, IsLeast, KeepsLsn}
use tele_path.Manager.Pool.{min_rec_lsn}
use tele_path.Manager.Options.{Options, InRange, options-InRange}
use tele_path.Manager.AsyncReads.{Entry, AsyncLoad, append_async_load, extends_load}
use tele_path.Manager.Coalescing.{append_async_load-AreReads, AreReads, all_entries}

abbrev block : ℕ → BufferTag
block n = record { file_id = 1; block_id = n }

abbrev small_env : Env (List ℕ) ℕ
small_env = record {
  pool_size = 2;
  zero_page = 0 ∷ [];
  queued_writeback = false;
  pre_write_hook = none;
  enable_background_cleaner = false;
  shared_capacity = 4;
  record_access = λ r frame. r;
  record_load = λ r frame. r;
  victim = λ r evictable. (r, if evictable 0 then some 0 else none);
  remove = λ r frame. r;
  read = λ disk tag page. (disk, ok, tag.block_id ∷ []);
  write = λ disk tag page. (page, ok);
  sync = λ disk files. (disk, ok);
}

-- Frame 0 holds a dirty page with one pin and one shared latch, and frame 1 is free.
abbrev dirty_word : ℕ
dirty_word = 2 + 2 ^ 2 + 2 ^ 8 + 2 ^ 17

abbrev dirty_descriptor : Descriptor
dirty_descriptor = record new_descriptor { control = dirty_word; tag = block 7; rec_lsn = 40 }

abbrev two_frames : ℕ → Descriptor
two_frames frame = if frame == 0 then dirty_descriptor else new_descriptor

abbrev new_pool : Manager (List ℕ) ℕ
new_pool = seed_free_frames small_env (new_manager small_env 1 none none 0 [])

-- Frame 0 claimed for a page, its load published, and the page changed.
abbrev claimed : Manager (List ℕ) ℕ
claimed = (try_reserve_frame_for_tag small_env 0 (block 7) false true new_pool).0

abbrev load_of_block : Reservation
load_of_block = record { frame_id = 0; evicted_tag = none }

abbrev loaded : Manager (List ℕ) ℕ
loaded = publish_loaded_frame small_env (block 7) load_of_block true false claimed

abbrev changed : Manager (List ℕ) ℕ
changed = mark_handle_dirty small_env 0 40 loaded

one_counted : changed.dirty_page_count ≡ 1
unfolding try_reserve_frame_for_tag publish_loaded_frame mark_handle_dirty seed_free_frames
    new_manager Ops.mark_dirty Ops.publish_resident Ops.update_and_wake Ops.try_reserve
    tele_path.PageTable.Ops.replace_unless_live empty_table Ops.published
one_counted = refl

claimed-IsReserved : IsReserved (word_of claimed 0)
unfolding try_reserve_frame_for_tag publish_loaded_frame mark_handle_dirty seed_free_frames
    new_manager Ops.mark_dirty Ops.publish_resident Ops.update_and_wake Ops.try_reserve
    tele_path.PageTable.Ops.replace_unless_live empty_table Ops.published view
claimed-IsReserved = record {
  small = omega arith;
  state = refl;
  pins = refl;
  exclusive = refl;
  shared = refl;
}

claimed-tag : load_tag small_env claimed 0 ≡ block 7
unfolding try_reserve_frame_for_tag publish_loaded_frame mark_handle_dirty seed_free_frames
    new_manager Ops.mark_dirty Ops.publish_resident Ops.update_and_wake Ops.try_reserve
    tele_path.PageTable.Ops.replace_unless_live empty_table Ops.published
claimed-tag = refl

complete_reservation-IsLoaded_example :
    (done : Manager (List ℕ) ℕ × Result PinnedFrame) × (complete_reservation small_env
        (block 7)
        load_of_block
        zero_and_lock
        claimed
      ≡ some done)
    × IsLoaded small_env zero_and_lock (block 7) load_of_block claimed done.0 done.1
complete_reservation-IsLoaded_example =
    complete_reservation-IsLoaded small_env zero_and_lock (block 7) load_of_block claimed
      claimed-IsReserved claimed-tag

abbrev released : Manager (List ℕ) ℕ
released = release_frame small_env 0 loaded

released-is_resident : is_resident (word_of released 0) ≡ true
unfolding try_reserve_frame_for_tag publish_loaded_frame mark_handle_dirty seed_free_frames
    new_manager Ops.mark_dirty Ops.publish_resident Ops.update_and_wake Ops.try_reserve
    tele_path.PageTable.Ops.replace_unless_live empty_table Ops.published release_frame Ops.unpin
released-is_resident = refl

released-small : word_of released 0 < 2 ^ 32
unfolding try_reserve_frame_for_tag publish_loaded_frame mark_handle_dirty seed_free_frames
    new_manager Ops.mark_dirty Ops.publish_resident Ops.update_and_wake Ops.try_reserve
    tele_path.PageTable.Ops.replace_unless_live empty_table Ops.published release_frame Ops.unpin
released-small = omega arith

try_reserve-is_evictable_example :
    (outcome (ReserveOutcome.rejected, 0) 0 (Ops.try_reserve false) released).0 ≡ (
      if is_evictable small_env released 0
      then (if is_dirty (word_of released 0)
          then ReserveOutcome.needs_flush
          else ReserveOutcome.reserved)
      else ReserveOutcome.rejected)
try_reserve-is_evictable_example =
    try_reserve-is_evictable small_env released 0 (omega arith) released-is_resident released-small

min_rec_lsn-IsLeast_example : IsLeast 2 changed.descriptors (min_rec_lsn small_env changed)
min_rec_lsn-IsLeast_example = min_rec_lsn-IsLeast small_env changed

abbrev in_writeback : Descriptor
in_writeback = record dirty_descriptor { rec_lsn = 45; writeback_rec_lsn = 40 }

writeback-frame_rec_lsn_example :
    KeepsLsn false (io_error "write failed" 5) 50 dirty_descriptor in_writeback
writeback-frame_rec_lsn_example =
    writeback-frame_rec_lsn false (io_error "write failed" 5) 50 dirty_descriptor in_writeback
      (inl refl) (omega arith)

abbrev cleaned_pool : Options
cleaned_pool = record {
  pool_size = 100;
  page_table_stripe_count = 0;
  flush_worker_count = 200;
  flush_submit_batch_size = 0;
  flush_foreground_burst_limit = 0;
  enable_background_cleaner = true;
  dirty_page_high_watermark = 0;
  dirty_page_low_watermark = 90;
}

options-InRange_example : InRange 8 32 cleaned_pool
options-InRange_example = options-InRange 8 32 cleaned_pool (omega arith)

abbrev first_entry : Entry
first_entry = record { tag = block 7; reservation = load_of_block; slot = 0 }

abbrev second_entry : Entry
second_entry = record {
  tag = block 8;
  reservation = record { frame_id = 1; evicted_tag = none };
  slot = 1;
}

abbrev one_load : List AsyncLoad
one_load = (record { before = []; last = first_entry }) ∷ []

append_async_load-AreReads_example :
    AreReads 4 (append_async_load 4 second_entry one_load)
    × (all_entries (append_async_load 4 second_entry one_load)
        ≡ all_entries one_load ++ (second_entry ∷ []))
append_async_load-AreReads_example =
    append_async_load-AreReads 4 second_entry one_load (omega arith) (tt, omega arith, tt)

one_request :
    append_async_load 4 second_entry one_load
    ≡ (record { before = first_entry ∷ []; last = second_entry }) ∷ []
unfolding append_async_load extends_load
one_request = refl

changed-IsIdle : IsIdle (word_of changed 0) 1
unfolding try_reserve_frame_for_tag publish_loaded_frame mark_handle_dirty seed_free_frames
    new_manager Ops.mark_dirty Ops.publish_resident Ops.update_and_wake Ops.try_reserve
    tele_path.PageTable.Ops.replace_unless_live empty_table Ops.published view
    tele_path.Manager.Frames.mark_descriptor
changed-IsIdle = record {
  small = omega arith;
  state = refl;
  dirty = refl;
  queued = refl;
  active = refl;
  exclusive = refl;
}

changed-private : changed.shared_files ≡ none
unfolding try_reserve_frame_for_tag publish_loaded_frame mark_handle_dirty seed_free_frames
    new_manager Ops.mark_dirty Ops.publish_resident Ops.update_and_wake Ops.try_reserve
    tele_path.PageTable.Ops.replace_unless_live empty_table Ops.published
changed-private = refl

flush-IsFlushed_example :
    (done : Manager (List ℕ) ℕ × Status) × (flush_frame_with_stable_source small_env 0
        (some (9 ∷ []))
        changed
      ≡ some done)
    × IsFlushed small_env 0
        (9 ∷ [])
        changed
        (small_env.write changed.disk (load_tag small_env changed 0) (9 ∷ []))
        done.0
        done.1
flush-IsFlushed_example =
    flush-IsFlushed small_env 0 (9 ∷ []) changed (omega arith) refl refl changed-private
      changed-IsIdle

-- A load in the thread of shard 3 evicts a page, and a flush in that of shard 63 fails.
abbrev two_calls : List Call
two_calls =
    (record { shard = 3; event = Event.load_completion (block 7) (some (block 8)) })
    ∷ (record {
      shard = 63;
      event = Event.flush_task_completion (block 9) (error (io_error "write failed" 5));
    })
    ∷ []

snapshot-raised_example :
    read_counters_snapshot (record_calls two_calls no_counts) Counter.evictions
    ≡ raised Counter.evictions two_calls % 2 ^ 64
snapshot-raised_example =
    snapshot-raised two_calls Counter.evictions (omega arith, (omega arith, tt))

one_eviction : raised Counter.evictions two_calls ≡ 1
unfolding raised counters_of
one_eviction = refl
