-- ===== src/Manager/AsyncReads.antt =====
-- src/cpp/lib/buffer/buffer_manager_async_read.cc. A load is submitted with the others of its call, and
-- the engine completes it later, through FinishAsyncLoad.
use tele_path.Prelude.{
  ℕ, zero, suc, ◌+◌, ◌%◌, ◌^◌, Bool, true, false, ◌&&◌, Option, none, some, List, [], ◌∷◌, ◌++◌,
  length, set, ◌==◌, ltb, if◌then◌else◌,
}
use tele_path.Common.Types.{BufferTag, invalid_frame_id}
use tele_path.Common.Status.{Status, ok, error}
use tele_path.Common.Results.{Result, value, failure, invalid_argument, is_resource_exhausted}
use tele_path.Manager.Types.{Page, Event, Env, Manager, Call, observe, pure, update, ◌>>=◌, ◌>>◌}
use tele_path.Manager.Frames.{pinned, loading, absent, probe_resident, is_resident_tag}
use tele_path.Manager.Files.{check_usable}
use tele_path.Manager.Strategy.{Strategy}
use tele_path.Manager.Reserve.{Reservation, abort_load_reservation}
use tele_path.Manager.Loading.{reserve_frame_for_tag, publish_loaded_frame, fill_frame}
use tele_path.Manager.Reading.{records}

-- AsyncLoad::Entry.
pub record Entry : Type 0 where
  pub tag : BufferTag
  pub reservation : Reservation
  pub slot : ℕ

-- The entries of an AsyncLoad, which has at least one, as its last entry and those before.
pub record AsyncLoad : Type 0 where
  pub before : List Entry
  pub last : Entry

abbrev pub new_load : Entry → AsyncLoad
new_load entry = record { before = []; last = entry }

abbrev pub entries_of : AsyncLoad → List Entry
entries_of load = load.before ++ (load.last ∷ [])

-- Whether a page goes on with the last page of a load that has room.
unfoldable pub extends_load : ℕ → AsyncLoad → BufferTag → Bool
extends_load max_request_blocks load tag =
    ltb (length load.before + 1) max_request_blocks
    && load.last.tag.file_id == tag.file_id
    && (load.last.tag.block_id + 1) % 2 ^ 64 == tag.block_id

-- AppendAsyncLoad. The loads stand in the order in which they were begun.
unfoldable pub append_async_load : ℕ → Entry → List AsyncLoad → List AsyncLoad
append_async_load max_request_blocks entry [] = new_load entry ∷ []
append_async_load max_request_blocks entry (load ∷ []) =
    if extends_load max_request_blocks load entry.tag
    then (record { before = entries_of load; last = entry }) ∷ []
    else load ∷ new_load entry ∷ []
append_async_load max_request_blocks entry (load ∷ next ∷ more) =
    load ∷ append_async_load max_request_blocks entry (next ∷ more)

pub data Slot : Type 0 where
  is_pinned is_loading is_failed is_deferred : Slot

-- ReadBuffersState.
pub record ReadState : Type 0 where
  pub strategy : Option Strategy
  pub tags : List BufferTag
  pub frames : List ℕ
  pub slots : List Slot
  pub loads : List AsyncLoad

-- What PrefetchBuffer has begun, and how it ends.
pub record Prefetched : Type 0 where
  pub loads : List AsyncLoad
  pub status : Status

-- The tag of the i-th block of a range; the sum is one of 64 bits.
abbrev pub block_at : ℕ → ℕ → ℕ → BufferTag
block_at file_id block_id i = record { file_id = file_id; block_id = (block_id + i) % 2 ^ 64 }

abbrev pub add_slot : BufferTag → ℕ → Slot → ReadState → ReadState
add_slot tag frame slot state = record state {
  tags = state.tags ++ (tag ∷ []);
  frames = state.frames ++ (frame ∷ []);
  slots = state.slots ++ (slot ∷ []);
}

abbrev pub begin_load : ℕ → BufferTag → Reservation → ℕ → ReadState → ReadState
begin_load max_request_blocks tag reservation i state =
    record (add_slot tag reservation.frame_id is_loading state) {
      loads =
          append_async_load max_request_blocks
            (record { tag = tag; reservation = reservation; slot = i }) state.loads;
    }

module _ {Disk R : Type 0} (env : Env Disk R) (fuel max_request_blocks : ℕ) where
  -- The loop of PrefetchBuffer over `left` blocks from the i-th on.
  unfoldable pub prefetch_from : ℕ → ℕ → ℕ → ℕ → List AsyncLoad → Call Disk R Prefetched
  unfolding append_async_load
  prefetch_from file_id block_id zero i loads = pure (record { loads = loads; status = ok })
  prefetch_from file_id block_id (suc left) i loads =
      let tag = block_at file_id block_id i in
      let rest = prefetch_from file_id block_id left (i + 1) in
      λ m. elim (is_resident_tag env tag m) [
        | true ↦ rest loads m
        | false ↦
            (do
              reserved ← reserve_frame_for_tag env fuel tag none false
              elim (reserved.result) [
                | failure e ↦ pure (record {
                  loads = loads;
                  status = if is_resource_exhausted e then ok else error e;
                })
                | value none ↦ rest loads
                | value (some reservation) ↦ rest (
                    append_async_load max_request_blocks
                      (record { tag = tag; reservation = reservation; slot = i }) loads)
              ])
              m
      ]

  unfoldable pub prefetch_buffer : ℕ → ℕ → ℕ → Call Disk R Prefetched
  unfolding prefetch_from check_usable
  prefetch_buffer file_id block_id block_count m = elim (check_usable env m) [
    | error e ↦ some (m, record { loads = []; status = error e })
    | ok ↦ prefetch_from file_id block_id block_count 0 [] m
  ]

  abbrev pub records_of : ReadState → Bool
  records_of state = records state.strategy

  -- The rest of one round of StartReadBuffers, for a page that is not pinned.
  unfoldable pub start_absent : BufferTag → ℕ → ReadState → Call Disk R ReadState
  start_absent tag i state m = elim (is_resident_tag env tag m) [
    | true ↦ some (m, add_slot tag invalid_frame_id is_deferred state)
    | false ↦
        (do
          reserved ← reserve_frame_for_tag env fuel tag state.strategy false
          let moved = record state { strategy = reserved.strategy }
          elim (reserved.result) [
            | failure e ↦ pure (add_slot tag invalid_frame_id is_deferred moved)
            | value none ↦ pure (add_slot tag invalid_frame_id is_deferred moved)
            | value (some reservation) ↦ (do
              update (observe (Event.read_miss tag))
              pure (begin_load max_request_blocks tag reservation i moved))
          ])
          m
  ]

  -- TryReadResidentHit, and what follows it; only a pin counts as a hit.
  unfoldable pub start_block : BufferTag → ℕ → ReadState → Call Disk R ReadState
  unfolding start_absent probe_resident
  start_block tag i state = do
    probe ← probe_resident env tag (records_of state)
    elim probe [
      | pinned frame ↦ (do
        update (observe (Event.resident_hit tag))
        pure (add_slot tag frame is_pinned state))
      | loading frame ↦ start_absent tag i state
      | absent ↦ start_absent tag i state
    ]

  unfoldable pub start_from : ℕ → ℕ → ℕ → ℕ → ReadState → Call Disk R ReadState
  unfolding start_block
  start_from file_id block_id zero i state = pure state
  start_from file_id block_id (suc left) i state =
      let rest = start_from file_id block_id left (i + 1) in
      (do started ← start_block (block_at file_id block_id i) i state; rest started)

  unfoldable pub start_read_buffers :
      ℕ → ℕ → ℕ → Option Strategy → Bool → Call Disk R (Result ReadState)
  unfolding start_from check_usable
  start_read_buffers file_id block_id block_count strategy in_progress m =
      elim (check_usable env m) [
        | error e ↦ some (m, failure e)
        | ok ↦ elim in_progress [
          | true ↦
              some (m, failure (invalid_argument "read buffers operation is still in progress"))
          | false ↦
              (do
                state ←
                    start_from file_id block_id block_count 0 (record {
                      strategy = strategy;
                      tags = [];
                      frames = [];
                      slots = [];
                      loads = [];
                    })
                pure (value state))
                m
        ]
      ]

-- FinishAsyncLoad, with the pages that the engine left in the frames. Prefetched pages are published
-- without their pin.
pub record Finished (Disk R : Type 0) : Type 0 where
  pub manager : Manager Disk R
  pub slots : List Slot

module _ {Disk R : Type 0} (env : Env Disk R) where
  abbrev pub finish_entry : Bool → Status → Page → Entry → Finished Disk R → Finished Disk R
  finish_entry prefetch (error e) page entry f = record {
    manager =
        abort_load_reservation env entry.reservation.frame_id entry.tag
          (fill_frame env entry.reservation.frame_id page f.manager);
    slots = if prefetch then f.slots else set f.slots entry.slot is_failed;
  }
  finish_entry prefetch ok page entry f = record {
    manager =
        publish_loaded_frame env entry.tag entry.reservation true prefetch
          (fill_frame env entry.reservation.frame_id page f.manager);
    slots = f.slots;
  }

  unfoldable pub finish_async_load :
      Bool → Status → (Entry → Page) → List Entry → Finished Disk R → Finished Disk R
  unfolding abort_load_reservation publish_loaded_frame
  finish_async_load prefetch status page [] f = f
  finish_async_load prefetch status page (entry ∷ entries) f =
      finish_async_load prefetch status page entries
        (finish_entry prefetch status (page entry) entry f)
