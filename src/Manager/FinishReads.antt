-- ===== src/Manager/FinishReads.antt =====
-- FinishReadBuffers and WaitReadBuffers of src/cpp/lib/buffer/buffer_manager_async_read.cc, after the
-- engine has completed the loads of the operation or has stopped.
use tele_path.Prelude.{
  ℕ, zero, suc, ◌+◌, Bool, true, false, not, ◌&&◌, Option, List, [], ◌∷◌, length, get_or, set,
  if◌then◌else◌,
}
use tele_path.Common.Types.{no_tag, invalid_frame_id}
use tele_path.Common.Status.{Status, ok, error}
use tele_path.Common.Results.{value, failure}
use tele_path.Manager.Types.{Env, Call, pure, update, ◌>>=◌, ◌>>◌}
use tele_path.Manager.Frames.{release_frame}
use tele_path.Manager.Flushing.{succeeded}
use tele_path.Manager.Strategy.{Strategy}
use tele_path.Manager.Loading.{normal, PinnedFrame}
use tele_path.Manager.Reading.{pin_page}
use tele_path.Manager.Handles.{Handle, make_shared_handle}
use tele_path.Manager.AsyncReads.{Slot, is_pinned, is_loading, is_failed, is_deferred, ReadState}

abbrev pub deferred : Slot → Bool
deferred is_deferred = true
deferred is_pinned = false
deferred is_loading = false
deferred is_failed = false

abbrev pub holds_pin : Slot → Bool
holds_pin is_pinned = true
holds_pin is_loading = true
holds_pin is_failed = false
holds_pin is_deferred = false

abbrev pub pinned_slot : ℕ → Option Strategy → PinnedFrame → ReadState → ReadState
pinned_slot i strategy frame state = record state {
  strategy = strategy;
  frames = set state.frames i frame.frame_id;
  slots = set state.slots i is_pinned;
}

-- The state after the loop over deferred slots, and the first error.
pub record Waited : Type 0 where
  pub state : ReadState
  pub status : Status

-- The handles that the operation keeps, and its status.
pub record ReadResult : Type 0 where
  pub handles : List Handle
  pub status : Status

module _ {Disk R : Type 0} (env : Env Disk R) (fuel this size : ℕ) where
  unfoldable pub pin_deferred : ℕ → ℕ → ReadState → Call Disk R Waited
  pin_deferred zero i state = pure (record { state = state; status = ok })
  pin_deferred (suc left) i state =
      let rest = pin_deferred left (i + 1) in
      elim (deferred (get_or state.slots i is_failed)) [
        | false ↦ rest state
        | true ↦ (do
          pin ← pin_page env fuel (get_or state.tags i no_tag) state.strategy normal
          elim (pin.result) [
            | failure e ↦
                pure (record { state = record state { strategy = pin.strategy }; status = error e })
            | value frame ↦ rest (pinned_slot i pin.strategy frame state)
          ])
      ]

  -- The last loop: a handle for every pinned frame, or its release.
  unfoldable pub take_handles : Bool → ℕ → ℕ → ReadState → Call Disk R (List Handle)
  unfolding make_shared_handle
  take_handles keep zero i state = pure []
  take_handles keep (suc left) i state =
      let rest = take_handles keep left (i + 1) state in
      let frame = get_or state.frames i invalid_frame_id in
      elim (holds_pin (get_or state.slots i is_failed)) [
        | false ↦ rest
        | true ↦ elim keep [
          | false ↦ (do update (release_frame env frame); rest)
          | true ↦ (do
            handle ← make_shared_handle env this size frame (get_or state.tags i no_tag)
            more ← rest
            pure (handle ∷ more))
        ]
      ]

  unfoldable pub finish_read_buffers : Bool → Bool → Status → ReadState → Call Disk R ReadResult
  unfolding pin_deferred take_handles
  finish_read_buffers done make_handles io_status state =
      if not done then pure (record { handles = []; status = io_status }) else (do
        waited ←
            (if succeeded io_status && make_handles
              then pin_deferred (length state.slots) 0 state
              else pure (record { state = state; status = io_status }))
        handles ←
            take_handles (succeeded waited.status && make_handles) (length waited.state.slots) 0
              waited.state
        pure (record { handles = handles; status = waited.status }))
