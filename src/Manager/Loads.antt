-- ===== src/Manager/Loads.antt =====
-- What src/cpp/lib/buffer/buffer_manager_read.cc leaves of a reserved frame, when the read succeeds, when
-- it fails, and when the page is zeroed.
use tele_path.Prelude.{
  store_self, ℕ, ◌<◌, ◌≡◌, refl, sym, ap, ◌∙◌, subst, Bool, true, false, Option, none, some,
}
use tele_path.Common.Types.{BufferTag}
use tele_path.Common.Status.{Status, ok, error}
use tele_path.Common.Results.{Result, value, failure}
use tele_path.FrameControl.Word
use tele_path.FrameControl.Fields.{Fields, view}
use tele_path.FrameControl.Ops
use tele_path.Manager.Types.{Page, Env, Manager, Descriptor, word_of, after, operate, on_word}
use tele_path.Manager.Frames.{load_tag, acquire_exclusive}
use tele_path.Manager.Reserve.{Reservation}
use tele_path.Manager.Loading.{
  ReadBufferMode, normal, zero_and_lock, PinnedFrame, publish_loaded_frame, fill_frame,
  read_reserved_page, finish_read, complete_reservation,
}
use tele_path.Manager.PinWords.{acquired-fields}
use tele_path.Manager.Published.{
  IsReserved, HoldsPage, IsGivenBack, publish-HoldsPage, abort-IsGivenBack,
}

module _ {Disk R : Type 0} (env : Env Disk R) where
  -- What the end of a load leaves, from what the read of the page gave.
  abbrev pub IsRead :
      BufferTag
      → Reservation
      → Manager Disk R
      → Disk × Status × Page
      → Manager Disk R
      → Result PinnedFrame
      → Type 0
  IsRead tag r m (disk, ok, page) m' result =
      (result ≡ value (record { frame_id = r.frame_id; latched = false }))
      × HoldsPage env r.frame_id 0 tag page m'
  IsRead tag r m (disk, error e, page) m' result =
      (result ≡ failure e) × IsGivenBack env r.frame_id tag m m'

  finish_read-IsRead :
      (tag : BufferTag) (r : Reservation) (m : Manager Disk R) (disk : Disk) (status : Status)
      (page : Page)
      → IsReserved (word_of m r.frame_id)
      → load_tag env m r.frame_id ≡ tag
      → let (m', result) =
          finish_read env tag r
            (fill_frame env r.frame_id page (record m { disk = disk }), status) in
        IsRead tag r m (disk, status, page) m' result
  unfolding finish_read
  finish_read-IsRead tag r m disk ok page reserved same =
      let filled = fill_frame env r.frame_id page (record m { disk = disk }) in
      let (state, pins, exclusive, shared, tagged, held) =
        publish-HoldsPage env r tag true filled reserved.small reserved.pins reserved.shared in
      (
        refl,
        (
          state,
          pins,
          exclusive ∙ reserved.exclusive,
          shared,
          tagged ∙ same,
          held ∙ store_self m.frames r.frame_id page,
        ),
      )
  finish_read-IsRead tag r m disk (error e) page reserved same = (
    refl,
    abort-IsGivenBack env r.frame_id tag (fill_frame env r.frame_id page (record m { disk = disk }))
        reserved.small,
  )

  -- What CompleteReservation leaves: of a frame to read, what the read does; of one to zero, the latched
  -- frame with a page of zeros.
  abbrev pub IsLoaded :
      ReadBufferMode
      → BufferTag
      → Reservation
      → Manager Disk R
      → Manager Disk R
      → Result PinnedFrame
      → Type 0
  IsLoaded normal tag r m m' result =
      IsRead tag r m (env.read m.disk tag (m.frames r.frame_id)) m' result
  IsLoaded zero_and_lock tag r m m' result =
      (result ≡ value (record { frame_id = r.frame_id; latched = true }))
      × HoldsPage env r.frame_id 1 tag env.zero_page m'

  -- The frame to zero is latched before it is published.
  abbrev zeroed : Reservation → Manager Disk R → Manager Disk R
  zeroed r m =
      on_word r.frame_id Ops.try_acquire_exclusive (fill_frame env r.frame_id env.zero_page m)

  zeroed-IsLoaded :
      (tag : BufferTag) (r : Reservation) (m : Manager Disk R)
      → IsReserved (word_of m r.frame_id)
      → load_tag env m r.frame_id ≡ tag
      → HoldsPage env r.frame_id 1 tag env.zero_page
          (publish_loaded_frame env tag r false false (zeroed r m))
  zeroed-IsLoaded tag r m reserved same =
      let f = r.frame_id in
      let here = store_self m.descriptors f (operate Ops.try_acquire_exclusive (m.descriptors f)) in
      let word : word_of (zeroed r m) f
          ≡ after (word_of m f) (Ops.try_acquire_exclusive (word_of m f)) =
        ap (λ (d : Descriptor). d.control) here in
      let get = λ (part : Fields → ℕ). ap (λ (w : ℕ). part (view w)) word in
      let (free, bound, state, pins, exclusive, shared) =
        acquired-fields (word_of m f) reserved.small reserved.exclusive reserved.shared in
      let (state', pins', exclusive', shared', tagged, held) =
        publish-HoldsPage env r tag false (zeroed r m)
          (subst (λ w. w < Word.word_mod) (sym word) bound)
          (get (λ v. v.pins) ∙ pins ∙ reserved.pins) (get (λ v. v.shared) ∙ shared) in
      (
        state',
        pins',
        exclusive' ∙ get (λ v. v.exclusive) ∙ exclusive,
        shared',
        tagged ∙ ap (λ (d : Descriptor). d.tag) here ∙ same,
        held ∙ store_self m.frames f env.zero_page,
      )

  acquired :
      (f : ℕ) (m : Manager Disk R)
      → Ops.acquire_exclusive_blocked (word_of m f) ≡ false
      → acquire_exclusive env f m ≡ some (on_word f Ops.try_acquire_exclusive m, tt)
  unfolding acquire_exclusive
  acquired f m free =
      let wait : Bool → Option (Manager Disk R × Unit {0}) =
        λ blocked. elim blocked [ true ↦ none | false ↦ some (m, tt) ] in
      ap
        (λ blocked. elim (wait blocked) [
          | none ↦ none
          | some (m', a) ↦ some (on_word f Ops.try_acquire_exclusive m', tt)
        ])
        free

  -- CompleteReservation of a frame that is reserved for the page always returns. In the normal mode it
  -- reads the page. When the read succeeds, it returns the frame, not latched, and the frame is
  -- resident with one pin and no latch, has the page's tag and holds what was read. When the read
  -- fails, it returns the error of the read, and the frame is free, has no tag, pin or dirty page, is
  -- pushed to the free list and leaves the page table. In the mode that zeroes and locks, it returns
  -- the frame, latched, and the frame is resident with one pin and an exclusive latch, has the page's
  -- tag and holds a page of zeros.
  pub complete_reservation-IsLoaded :
      (mode : ReadBufferMode) (tag : BufferTag) (r : Reservation) (m : Manager Disk R)
      → IsReserved (word_of m r.frame_id)
      → load_tag env m r.frame_id ≡ tag
      → (done : Manager Disk R × Result PinnedFrame) × (complete_reservation env tag r mode m
          ≡ some done)
        × IsLoaded mode tag r m done.0 done.1
  unfolding complete_reservation read_reserved_page
  complete_reservation-IsLoaded normal tag r m reserved same =
      let (disk, status, page) = env.read m.disk tag (m.frames r.frame_id) in
      (
        finish_read env tag r (read_reserved_page env r.frame_id tag m),
        refl,
        finish_read-IsRead tag r m disk status page reserved same,
      )
  complete_reservation-IsLoaded zero_and_lock tag r m reserved same =
      let free =
        (acquired-fields (word_of m r.frame_id) reserved.small reserved.exclusive
          reserved.shared).0 in
      (
        (
          publish_loaded_frame env tag r false false (zeroed r m),
          value (record { frame_id = r.frame_id; latched = true }),
        ),
        ap
            (λ step. elim (step) [
              | none ↦ none
              | some (m', a) ↦ some (
                publish_loaded_frame env tag r false false m',
                value (record { frame_id = r.frame_id; latched = true }),
              )
            ])
            (acquired r.frame_id (fill_frame env r.frame_id env.zero_page m) free),
        (refl, zeroed-IsLoaded tag r m reserved same),
      )
