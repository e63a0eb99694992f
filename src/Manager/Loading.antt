-- ===== src/Manager/Loading.antt =====
-- src/cpp/lib/buffer/buffer_manager_read.cc: how a page that is not resident gets a frame, and is read
-- into it.
use tele_path.Prelude.{
  ℕ, zero, suc, Bool, true, false, ◌&&◌, ◌||◌, Option, none, some, ◌==◌, leb, if◌then◌else◌, store,
}
use tele_path.Common.Types.{BufferTag, invalid_frame_id}
use tele_path.Common.Status.{Status, ok, error}
use tele_path.Common.Results.{Result, value, failure, is_resource_exhausted}
use mathlib.Core.Option
use tele_path.FrameControl.Ops
use tele_path.Manager.Types.{
  Page, Event, Env, Manager, Call, on_word, observe, pure, update, always, ◌>>=◌, ◌>>◌,
}
use tele_path.Manager.Frames.{acquire_exclusive, reset_cleaner_candidate}
use tele_path.Manager.Pool.{has_transient_frame}
use tele_path.Manager.Strategy.{Strategy, next_ring_frame, remember_ring_frame}
use tele_path.Manager.Reserve.{
  Reservation, Candidate, ReservationOutcome, reserved, needs_flush, rejected, tag_exists,
  release_free_frame, abort_load_reservation, acquire_reservation_frame, try_reserve_frame_for_tag,
  flush_victim_before_reuse,
}

pub data ReadBufferMode : Type 0 where
  normal zero_and_lock : ReadBufferMode

-- What a call gives beside the strategy, which it may have moved.
pub record Ringed (A : Type 0) : Type 0 where
  pub strategy : Option Strategy
  pub result : A

abbrev pub ringed : {A : Type 0} → Option Strategy → A → Ringed A
ringed strategy result = record { strategy = strategy; result = result }

-- A pinned frame, and whether `*exclusive_latched` was set.
pub record PinnedFrame : Type 0 where
  pub frame_id : ℕ
  pub latched : Bool

module _ {Disk R : Type 0} (env : Env Disk R) where
  abbrev pub ring_frame :
      Strategy × ℕ → BufferTag → Manager Disk R → Manager Disk R × Ringed ReservationOutcome
  ring_frame (strategy, frame) tag m =
      let (tried, result) = try_reserve_frame_for_tag env frame tag false false m in
      if frame == invalid_frame_id || leb env.pool_size frame
      then (m, ringed (some strategy) rejected)
      else (tried, ringed (some strategy) result)

  unfoldable pub try_reserve_ring_frame :
      BufferTag → Option Strategy → Manager Disk R → Manager Disk R × Ringed ReservationOutcome
  unfolding next_ring_frame
  try_reserve_ring_frame tag none m = (m, ringed none rejected)
  try_reserve_ring_frame tag (some strategy) m = ring_frame (next_ring_frame strategy) tag m

  -- The loop of AcquireVictimFrame, with its rounds as fuel.
  unfoldable pub acquire_victim_frame : ℕ → Bool → Call Disk R (Result Candidate)
  unfolding has_transient_frame acquire_reservation_frame
  acquire_victim_frame zero wait_for_frame m = none
  acquire_victim_frame (suc fuel) wait_for_frame m =
      let again = acquire_victim_frame fuel wait_for_frame in
      let (tried, frame) = acquire_reservation_frame env m in
      elim frame [
        | value candidate ↦ some (tried, value candidate)
        | failure e ↦
            elim (is_resource_exhausted e && wait_for_frame && has_transient_frame env tried) [
              | true ↦ again tried
              | false ↦ some (tried, failure e)
            ]
      ]

  unfoldable pub reserve_victim : Candidate → BufferTag → Call Disk R (Result ReservationOutcome)
  unfolding try_reserve_frame_for_tag flush_victim_before_reuse
  reserve_victim candidate tag = do
    outcome ←
        always (try_reserve_frame_for_tag env candidate.frame_id tag true candidate.from_free_list)
    elim outcome [
      | needs_flush ↦ (do
        flushed ← flush_victim_before_reuse env candidate.frame_id
        elim flushed [
          | error e ↦ pure (failure e)
          | ok ↦ (do
            second ← always (try_reserve_frame_for_tag env candidate.frame_id tag false false)
            pure (value second))
        ])
      | reserved reservation ↦ pure (value (reserved reservation))
      | rejected ↦ pure (value rejected)
      | tag_exists ↦ pure (value tag_exists)
    ]

  abbrev pub put_back : Candidate → Manager Disk R → Manager Disk R
  put_back candidate m =
      if candidate.from_free_list then release_free_frame env candidate.frame_id m else m

  -- The loop of ReserveFrameForTag, with its rounds as fuel.
  unfoldable pub reserve_from :
      ℕ → BufferTag → Option Strategy → Bool → Call Disk R (Ringed (Result (Option Reservation)))
  unfolding acquire_victim_frame reserve_victim release_free_frame remember_ring_frame
  reserve_from zero tag strategy wait_for_frame m = none
  reserve_from (suc fuel) tag strategy wait_for_frame m =
      let again = reserve_from fuel tag strategy wait_for_frame in
      (do
        acquired ← acquire_victim_frame (suc fuel) wait_for_frame
        elim acquired [
          | failure e ↦ pure (ringed strategy (failure e))
          | value candidate ↦ (do
            outcome ← reserve_victim candidate tag
            elim outcome [
              | failure e ↦ pure (ringed strategy (failure e))
              | value tag_exists ↦ pure (ringed strategy (value none))
              | value (reserved reservation) ↦ pure (
                  ringed (Option.map (remember_ring_frame candidate.frame_id) strategy)
                    (value (some reservation)))
              | value rejected ↦ (do update (put_back candidate); again)
              | value needs_flush ↦ (do update (put_back candidate); again)
            ])
        ])
        m

  unfoldable pub reserve_frame_for_tag :
      ℕ → BufferTag → Option Strategy → Bool → Call Disk R (Ringed (Result (Option Reservation)))
  unfolding reserve_from try_reserve_ring_frame
  reserve_frame_for_tag fuel tag strategy wait_for_frame = do
    ring ← always (try_reserve_ring_frame tag strategy)
    elim (ring.result) [
      | reserved reservation ↦ pure (ringed ring.strategy (value (some reservation)))
      | tag_exists ↦ pure (ringed ring.strategy (value none))
      | rejected ↦ reserve_from fuel tag ring.strategy wait_for_frame
      | needs_flush ↦ reserve_from fuel tag ring.strategy wait_for_frame
    ]

  unfoldable pub publish_loaded_frame :
      BufferTag → Reservation → Bool → Bool → Manager Disk R → Manager Disk R
  unfolding reset_cleaner_candidate
  publish_loaded_frame tag reservation read_from_disk release_pin m =
      let frame = reservation.frame_id in
      let reset = reset_cleaner_candidate env frame m in
      let loaded = record reset { replacer = env.record_load reset.replacer frame } in
      observe
        (if read_from_disk
          then Event.load_completion tag reservation.evicted_tag
          else Event.zero_fill reservation.evicted_tag)
        (on_word frame (Ops.publish_resident release_pin) loaded)

  abbrev pub fill_frame : ℕ → Page → Manager Disk R → Manager Disk R
  fill_frame frame page m = record m { frames = store m.frames frame page }

  unfoldable pub read_reserved_page : ℕ → BufferTag → Manager Disk R → Manager Disk R × Status
  read_reserved_page frame tag m =
      let (disk, status, page) = env.read m.disk tag (m.frames frame) in
      (fill_frame frame page (record m { disk = disk }), status)

  -- The end of CompleteReservation, from the outcome of the read.
  unfoldable pub finish_read :
      BufferTag → Reservation → Manager Disk R × Status → Manager Disk R × Result PinnedFrame
  unfolding publish_loaded_frame abort_load_reservation
  finish_read tag reservation (m, ok) = (
    publish_loaded_frame tag reservation true false m,
    value (record { frame_id = reservation.frame_id; latched = false }),
  )
  finish_read tag reservation (m, error e) =
      (abort_load_reservation env reservation.frame_id tag m, failure e)

  unfoldable pub complete_reservation :
      BufferTag → Reservation → ReadBufferMode → Call Disk R (Result PinnedFrame)
  unfolding acquire_exclusive publish_loaded_frame finish_read read_reserved_page
  complete_reservation tag reservation zero_and_lock = do
    update (fill_frame reservation.frame_id env.zero_page)
    acquire_exclusive env reservation.frame_id
    update (publish_loaded_frame tag reservation false false)
    pure (value (record { frame_id = reservation.frame_id; latched = true }))
  complete_reservation tag reservation normal =
      always (λ m. finish_read tag reservation (read_reserved_page reservation.frame_id tag m))
