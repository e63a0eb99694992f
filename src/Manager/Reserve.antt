-- ===== src/Manager/Reserve.antt =====
-- src/cpp/lib/buffer/buffer_manager_eviction.cc: how a frame is claimed for a page, and given back.
use tele_path.Prelude.{
  ℕ, ◌+◌, ◌%◌, ◌^◌, Bool, true, false, not, ◌||◌, Option, none, some, ◌==◌, leb, bit_or,
  if◌then◌else◌,
}
use tele_path.Common.Types.{BufferTag, no_tag}
use tele_path.Common.Status.{Status, ok, error}
use tele_path.Common.Results.{Result, value, failure, resource_exhausted}
use tele_path.FrameControl.Word.{latch_mask, writeback_mask, has_any, pins, is_resident}
use tele_path.FrameControl.Ops
use tele_path.FrameControl.Ops.{ReserveOutcome, DiscardOutcome}
use tele_path.PageTable.Ops as Entries
use tele_path.FreeList.Ops as Free
use tele_path.Manager.Types.{
  Event, Env, Manager, Descriptor, Call, change_descriptor, word_of, on_word, outcome, observe,
  pure, update, ◌>>=◌, ◌>>◌,
}
use tele_path.Manager.Frames.{load_tag, store_tag, is_live_for, reset_cleaner_candidate}
use tele_path.Manager.Rounds.{flush_frame}

-- FrameReservation: the frame, and the tag of the page that it held.
pub record Reservation : Type 0 where
  pub frame_id : ℕ
  pub evicted_tag : Option BufferTag

-- ReservationCandidate.
pub record Candidate : Type 0 where
  pub frame_id : ℕ
  pub from_free_list : Bool

-- FrameReservationOutcome, with what `*reservation` receives.
pub data ReservationOutcome : Type 0 where
  reserved : Reservation → ReservationOutcome
  needs_flush rejected tag_exists : ReservationOutcome

-- The frame once its word says loading: the new tag and the next version.
unfoldable pub retag : BufferTag → Descriptor → Descriptor
retag tag d = record d { tag = tag; version = (d.version + 1) % 2 ^ 64 }

module _ {Disk R : Type 0} (env : Env Disk R) where
  -- FrameEvictionProbe.
  unfoldable pub is_evictable : Manager Disk R → ℕ → Bool
  is_evictable m frame =
      let word = word_of m frame in
      if leb env.pool_size frame
      then false
      else if not (is_resident word) || not (pins word == 0)
      then false
      else not (has_any word (bit_or latch_mask writeback_mask))

  unfoldable pub release_free_frame : ℕ → Manager Disk R → Manager Disk R
  unfolding reset_cleaner_candidate
  release_free_frame frame m =
      let reset = reset_cleaner_candidate env frame m in
      record reset { free_list = Free.push reset.free_list frame }

  abbrev pub forget_in_replacer : ℕ → Manager Disk R → Manager Disk R
  forget_in_replacer frame m = record m { replacer = env.remove m.replacer frame }

  -- What both ways of giving up a claimed frame end with.
  abbrev pub give_back : ℕ → Manager Disk R → Manager Disk R
  give_back frame m =
      release_free_frame frame (
        on_word frame Ops.release_to_free (store_tag env frame no_tag (forget_in_replacer frame m)))

  unfoldable pub abort_load_reservation : ℕ → BufferTag → Manager Disk R → Manager Disk R
  unfolding release_free_frame
  abort_load_reservation frame tag m =
      give_back frame (record m { page_table = Entries.remove m.page_table tag frame })

  unfoldable pub acquire_reservation_frame : Manager Disk R → Manager Disk R × Result Candidate
  unfolding is_evictable
  acquire_reservation_frame m =
      let (free_list, popped) = Free.pop m.free_list in
      let (replacer, found) = env.victim m.replacer (is_evictable m) in
      elim popped [
        | some frame ↦ (
          record m { free_list = free_list },
          value (record { frame_id = frame; from_free_list = true }),
        )
        | none ↦ elim found [
          | some frame ↦ (
            record m { free_list = free_list; replacer = replacer },
            value (record { frame_id = frame; from_free_list = false }),
          )
          | none ↦ (
            record m { free_list = free_list; replacer = replacer },
            failure (resource_exhausted "no evictable frame available"),
          )
        ]
      ]

  unfoldable pub install_reservation_entry :
      BufferTag → Reservation → Manager Disk R → Manager Disk R × Option ℕ
  unfolding is_live_for
  install_reservation_entry tag reservation m =
      let (page_table, existing) =
        Entries.replace_unless_live m.page_table reservation.evicted_tag tag reservation.frame_id
          (λ other. is_live_for env other tag m) in
      (record m { page_table = page_table }, existing)

  -- The end of TryReserveFrameForTag, from what the page table answered.
  unfoldable pub finish_reservation :
      Reservation → Manager Disk R × Option ℕ → Manager Disk R × ReservationOutcome
  unfolding release_free_frame reset_cleaner_candidate
  finish_reservation reservation (m, some other) = (give_back reservation.frame_id m, tag_exists)
  finish_reservation reservation (m, none) =
      (reset_cleaner_candidate env reservation.frame_id m, reserved reservation)

  unfoldable pub claim_frame :
      ℕ
      → BufferTag
      → Bool
      → ReserveOutcome × ℕ
      → Manager Disk R
      → Manager Disk R × ReservationOutcome
  unfolding install_reservation_entry finish_reservation retag
  claim_frame frame tag allow_victim_flush (ReserveOutcome.rejected, observed) m = (m, rejected)
  claim_frame frame tag allow_victim_flush (ReserveOutcome.needs_flush, observed) m =
      (m, if allow_victim_flush then needs_flush else rejected)
  claim_frame frame tag allow_victim_flush (ReserveOutcome.reserved, observed) m =
      let reservation : Reservation = record {
        frame_id = frame;
        evicted_tag = if is_resident observed then some (load_tag env m frame) else none;
      } in
      finish_reservation reservation
        (install_reservation_entry tag reservation (change_descriptor frame (retag tag) m))

  unfoldable pub try_reserve_frame_for_tag :
      ℕ → BufferTag → Bool → Bool → Manager Disk R → Manager Disk R × ReservationOutcome
  unfolding claim_frame
  try_reserve_frame_for_tag frame tag allow_victim_flush from_free_list m =
      claim_frame frame tag allow_victim_flush
        (outcome (ReserveOutcome.rejected, 0) frame (Ops.try_reserve from_free_list) m)
        (on_word frame (Ops.try_reserve from_free_list) m)

  unfoldable pub flush_victim_before_reuse : ℕ → Call Disk R Status
  flush_victim_before_reuse frame = do
    flush_status ← flush_frame env frame
    elim flush_status [
      | ok ↦ pure ok
      | error e ↦ (do
        update (λ m. observe (Event.eviction_failure (load_tag env m frame)) m)
        pure (error e))
    ]
