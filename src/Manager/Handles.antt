-- ===== src/Manager/Handles.antt =====
-- src/cpp/lib/buffer/buffer_handle.cc, and the calls of buffer_manager.cc and buffer_manager_handle.cc
-- that make and use handles. A handle's manager is a number that stands for its address, and its data
-- the frame to whose memory it points.
use tele_path.Prelude.{ℕ, Bool, true, false, Option, none, some, ◌==◌, if◌then◌else◌}
use tele_path.Common.Types.{BufferTag, invalid_frame_id, invalid_lsn}
use tele_path.Common.Status.{Status, ok, error}
use tele_path.Common.Results.{Result, value, failure, invalid_argument}
use mathlib.Core.Option
use tele_path.PageTable.Table.{lookup_frame_id}
use tele_path.Manager.Types.{Env, Manager, Call, pure, update, ◌>>=◌, ◌>>◌}
use tele_path.Manager.Frames.{
  acquire_shared, acquire_exclusive, release_frame, release_shared_handle, release_exclusive_handle,
  mark_handle_dirty, try_pin_resident_frame,
}
use tele_path.Manager.Files.{check_usable}
use tele_path.Manager.Strategy.{Strategy}
use tele_path.Manager.Rounds.{flush_frame, flush_frame_with_stable_source, flush_frame_once}
use tele_path.Manager.Pool.{if_usable}
use tele_path.Manager.Loading.{ReadBufferMode, normal, Ringed, ringed}
use tele_path.Manager.Reading.{pin_page}

-- SharedBufferHandle, and ExclusiveBufferHandle, whose `marked_dirty` a shared one leaves alone.
pub record Handle : Type 0 where
  pub manager : Option ℕ
  pub frame_id : ℕ
  pub tag : BufferTag
  pub data_frame : Option ℕ
  pub size : ℕ
  pub marked_dirty : Bool

-- What a moved-from or released handle keeps is its tag.
abbrev pub emptied : Handle → Handle
emptied h = record {
  manager = none;
  frame_id = invalid_frame_id;
  tag = h.tag;
  data_frame = none;
  size = 0;
  marked_dirty = false;
}

-- The constructor with arguments.
abbrev pub new_handle : ℕ → ℕ → BufferTag → ℕ → Handle
new_handle manager frame tag size = record {
  manager = some manager;
  frame_id = frame;
  tag = tag;
  data_frame = some frame;
  size = size;
  marked_dirty = false;
}

pub record Moved : Type 0 where
  pub target : Handle
  pub source : Handle

-- The move constructors.
unfoldable pub move_handle : Handle → Moved
move_handle other = record { target = other; source = emptied other }

-- Which of the two kinds a handle is.
pub data Kind : Type 0 where
  shared exclusive : Kind

module _ {Disk R : Type 0} (env : Env Disk R) where
  abbrev pub release_handle : Kind → ℕ → Manager Disk R → Manager Disk R
  release_handle shared frame m = release_shared_handle env frame m
  release_handle exclusive frame m = release_exclusive_handle env frame m

  -- Reset, which the destructors call too.
  unfoldable pub reset_handle : Kind → Handle → Manager Disk R → Manager Disk R × Handle
  reset_handle kind h m = elim (h.manager) [
    | none ↦ (m, h)
    | some manager ↦ (release_handle kind h.frame_id m, emptied h)
  ]

  -- The move assignments, between two handles or of a handle to itself.
  unfoldable pub assign_handle :
      Kind → Bool → Handle → Handle → Manager Disk R → Manager Disk R × Moved
  unfolding reset_handle move_handle
  assign_handle kind same_handle self other m =
      if same_handle
      then (m, record { target = self; source = self })
      else ((reset_handle kind self m).0, move_handle other)

  -- mutable_data; the span is that of the handle's data and size.
  unfoldable pub mutable_data : Handle → Manager Disk R → Manager Disk R × Handle
  mutable_data h m = elim (h.manager) [
    | none ↦ (m, h)
    | some manager ↦
        if h.marked_dirty
        then (m, h)
        else (mark_handle_dirty env h.frame_id invalid_lsn m, record h { marked_dirty = true })
  ]

  unfoldable pub mark_dirty_handle : ℕ → Handle → Manager Disk R → Manager Disk R × Handle
  mark_dirty_handle lsn h m = elim (h.manager) [
    | none ↦ (m, h)
    | some manager ↦ (mark_handle_dirty env h.frame_id lsn m, record h { marked_dirty = true })
  ]

  -- `this` is the manager's own address and `size` its page size.
  module _ (this size : ℕ) where
    unfoldable pub make_shared_handle : ℕ → BufferTag → Call Disk R Handle
    make_shared_handle frame tag = do
      acquire_shared env frame
      pure (new_handle this frame tag size)

    unfoldable pub make_exclusive_handle : ℕ → BufferTag → Bool → Call Disk R Handle
    make_exclusive_handle frame tag latched = do
      if latched then pure tt else acquire_exclusive env frame
      pure (new_handle this frame tag size)

    unfoldable pub read_buffer :
        ℕ → BufferTag → Option Strategy → Call Disk R (Ringed (Result Handle))
    unfolding make_shared_handle
    read_buffer fuel tag strategy = do
      pin ← pin_page env fuel tag strategy normal
      elim (pin.result) [
        | failure e ↦ pure (ringed pin.strategy (failure e))
        | value frame ↦ (do
          handle ← make_shared_handle frame.frame_id tag
          pure (ringed pin.strategy (value handle)))
      ]

    unfoldable pub read_buffer_exclusive :
        ℕ → BufferTag → Option Strategy → ReadBufferMode → Call Disk R (Ringed (Result Handle))
    unfolding make_exclusive_handle
    read_buffer_exclusive fuel tag strategy mode = do
      pin ← pin_page env fuel tag strategy mode
      elim (pin.result) [
        | failure e ↦ pure (ringed pin.strategy (failure e))
        | value frame ↦ (do
          handle ← make_exclusive_handle frame.frame_id tag frame.latched
          pure (ringed pin.strategy (value handle)))
      ]

    abbrev pub is_own : Handle → Bool
    is_own h = elim (h.manager) [ none ↦ false | some manager ↦ manager == this ]

    abbrev pub foreign_handle : Status
    foreign_handle = error (invalid_argument "buffer handle does not belong to this buffer manager")

    unfoldable pub release_buffer :
        Kind → Handle → Manager Disk R → Manager Disk R × Handle × Status
    unfolding reset_handle
    release_buffer kind h m = elim (check_usable env m) [
      | error e ↦ (m, h, error e)
      | ok ↦
          let (released, left) = reset_handle kind h m in
          if is_own h then (released, left, ok) else (m, h, foreign_handle)
    ]

    unfoldable pub flush_shared_buffer : Handle → Call Disk R Status
    flush_shared_buffer h = if_usable env (
        if is_own h
        then (λ m.
            flush_frame_with_stable_source env h.frame_id (Option.map m.frames h.data_frame) m)
        else pure foreign_handle)

    unfoldable pub flush_exclusive_buffer : Handle → Call Disk R Status
    flush_exclusive_buffer h = if_usable env (
        if is_own h
        then (λ m. flush_frame_once env h.frame_id (Option.map m.frames h.data_frame) m)
        else pure foreign_handle)

  abbrev pub flush_if_pinned : ℕ → Bool → Call Disk R Status
  flush_if_pinned frame false = pure ok
  flush_if_pinned frame true = do
    flush_status ← flush_frame env frame
    update (release_frame env frame)
    pure flush_status

  unfoldable pub flush_buffer : BufferTag → Call Disk R Status
  flush_buffer tag = if_usable env (λ m. elim (lookup_frame_id m.page_table tag) [
    | none ↦ some (m, ok)
    | some frame ↦
        (do is_pinned ← try_pin_resident_frame env frame tag false; flush_if_pinned frame is_pinned)
          m
  ])
