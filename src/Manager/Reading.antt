-- ===== src/Manager/Reading.antt =====
-- src/cpp/lib/buffer/buffer_manager_read.cc: PinPage, and the reads, flushes and releases of
-- buffer_manager.cc through handles, and DropFileBuffers of buffer_manager_eviction.cc.
use tele_path.Prelude.{
  ℕ, zero, suc, Bool, true, false, not, ◌||◌, Option, none, some, if◌then◌else◌,
}
use tele_path.Common.Types.{BufferTag}
use tele_path.Common.Status.{ok, error}
use tele_path.Common.Results.{Result, value, failure, is_resource_exhausted}
use tele_path.Manager.Types.{Event, Env, Call, observe, pure, update, ◌>>=◌, ◌>>◌}
use tele_path.Manager.Frames.{
  pinned, loading, absent, probe_resident, wait_for_load, is_resident_tag,
}
use tele_path.Manager.Files.{check_usable}
use tele_path.Manager.Strategy.{Strategy, records_accesses}
use tele_path.Manager.Loading.{
  ReadBufferMode, Ringed, ringed, PinnedFrame, reserve_frame_for_tag, complete_reservation,
}

-- `none` is a page that another frame holds or is loading.
abbrev pub Loaded : Type 0
Loaded = Ringed (Result (Option PinnedFrame))

abbrev pub loaded_frame : Result PinnedFrame → Result (Option PinnedFrame)
loaded_frame (value frame) = value (some frame)
loaded_frame (failure e) = failure e

abbrev pub records : Option Strategy → Bool
records none = true
records (some strategy) = records_accesses strategy

module _ {Disk R : Type 0} (env : Env Disk R) where
  unfoldable pub load_page : ℕ → BufferTag → Option Strategy → ReadBufferMode → Call Disk R Loaded
  unfolding reserve_frame_for_tag complete_reservation
  load_page fuel tag strategy mode = do
    reserved ← reserve_frame_for_tag env fuel tag strategy true
    elim (reserved.result) [
      | failure e ↦ pure (ringed reserved.strategy (failure e))
      | value none ↦ pure (ringed reserved.strategy (value none))
      | value (some reservation) ↦ (do
        update (observe (Event.read_miss tag))
        frame ← complete_reservation env tag reservation mode
        pure (ringed reserved.strategy (loaded_frame frame)))
    ]

  -- The loop of PinPage, with its rounds as fuel; `waited` says that a load was waited for.
  unfoldable pub pin_from :
      ℕ
      → BufferTag
      → Option Strategy
      → ReadBufferMode
      → Bool
      → Call Disk R (Ringed (Result PinnedFrame))
  unfolding probe_resident wait_for_load load_page is_resident_tag records_accesses
  pin_from zero tag strategy mode waited m = none
  pin_from (suc fuel) tag strategy mode waited m =
      let again = pin_from fuel tag in
      (do
        probe ← probe_resident env tag (records strategy)
        elim probe [
          | pinned frame ↦ (do
            update (observe (if waited then Event.joined_miss_hit tag else Event.resident_hit tag))
            pure (ringed strategy (value (record { frame_id = frame; latched = false }))))
          | loading frame ↦ (do wait_for_load env frame tag; again strategy mode true)
          | absent ↦ (do
            loaded ← load_page (suc fuel) tag strategy mode
            elim (loaded.result) [
              | value (some frame) ↦ pure (ringed loaded.strategy (value frame))
              | value none ↦ again loaded.strategy mode waited
              | failure e ↦ λ m'.
                  elim (not (is_resource_exhausted e) || not (is_resident_tag env tag m')) [
                    | true ↦ some (m', ringed loaded.strategy (failure e))
                    | false ↦ again loaded.strategy mode waited m'
                  ]
            ])
        ])
        m

  unfoldable pub pin_page :
      ℕ → BufferTag → Option Strategy → ReadBufferMode → Call Disk R (Ringed (Result PinnedFrame))
  unfolding check_usable pin_from
  pin_page fuel tag strategy mode m = elim (check_usable env m) [
    | error e ↦ some (m, ringed strategy (failure e))
    | ok ↦ pin_from fuel tag strategy mode false m
  ]
