-- ===== src/Manager/Published.antt =====
-- What src/cpp/lib/buffer/buffer_manager_read.cc leaves of a frame that it publishes, and of one whose load
-- it gives up.
use tele_path.Prelude.{
  store_self, ℕ, ◌<◌, ◌≡◌, refl, sym, ap, ◌∙◌, subst, Bool, false, store, arith,
}
use tele_path.Common.Types.{BufferTag, no_tag}
use tele_path.FrameControl.Word
use tele_path.FrameControl.Fields.{Fields, view}
use tele_path.FrameControl.Ops
use tele_path.PageTable.Ops as Entries
use tele_path.FreeList.Ops as Free
use tele_path.Manager.Types.{Page, Env, Manager, Descriptor, word_of, after, operate}
use tele_path.Manager.Frames.{reset_cleaner_candidate, load_tag}
use tele_path.Manager.Reserve.{Reservation, release_free_frame, abort_load_reservation}
use tele_path.Manager.Loading.{publish_loaded_frame}
use tele_path.Manager.PinWords.{published-fields, freed-fields}

-- A frame that is reserved: loading, with the loader's pin and no latch.
pub record IsReserved (w : ℕ) : Type 0 where
  pub small : w < Word.word_mod
  pub state : (view w).state ≡ 1
  pub pins : (view w).pins ≡ 1
  pub exclusive : (view w).exclusive ≡ 0
  pub shared : (view w).shared ≡ 0

module _ {Disk R : Type 0} (env : Env Disk R) where
  -- The frame holds the page under its tag, with one pin, no reader and as many writers as are given.
  abbrev pub HoldsPage : ℕ → ℕ → BufferTag → Page → Manager Disk R → Type 0
  HoldsPage f writers tag page m =
      ((view (word_of m f)).state ≡ 2)
      × ((view (word_of m f)).pins ≡ 1)
      × ((view (word_of m f)).exclusive ≡ writers)
      × ((view (word_of m f)).shared ≡ 0)
      × (load_tag env m f ≡ tag)
      × (m.frames f ≡ page)

  -- The frame is free, without tag, pin or writeback, and on the free list and in the page table as
  -- after a push and a removal.
  abbrev pub IsGivenBack : ℕ → BufferTag → Manager Disk R → Manager Disk R → Type 0
  IsGivenBack f tag m m' =
      ((view (word_of m' f)).state ≡ 0)
      × ((view (word_of m' f)).pins ≡ 0)
      × ((view (word_of m' f)).dirty ≡ 0)
      × (load_tag env m' f ≡ no_tag)
      × (m'.free_list ≡ Free.push m.free_list f)
      × (m'.page_table ≡ Entries.remove m.page_table tag f)

  -- Publishing a pinned frame keeps its pin and its latch.
  pub publish-HoldsPage :
      (r : Reservation) (tag : BufferTag) (read_from_disk : Bool) (m : Manager Disk R)
      → word_of m r.frame_id < Word.word_mod
      → (view (word_of m r.frame_id)).pins ≡ 1
      → (view (word_of m r.frame_id)).shared ≡ 0
      → HoldsPage r.frame_id
          (view (word_of m r.frame_id)).exclusive
          (load_tag env m r.frame_id)
          (m.frames r.frame_id)
          (publish_loaded_frame env tag r read_from_disk false m)
  unfolding publish_loaded_frame reset_cleaner_candidate
  publish-HoldsPage r tag read_from_disk m small one_pin no_reader =
      let f = r.frame_id in
      let d = operate (Ops.publish_resident false) (m.descriptors f) in
      let here = store_self m.descriptors f d in
      let (state, pins, exclusive, shared) = published-fields false (word_of m f) small tt in
      let word : (store m.descriptors f d f).control
          ≡ after (word_of m f) (Ops.publish_resident false (word_of m f)) =
        ap (λ (d : Descriptor). d.control) here in
      let get = λ (part : Fields → ℕ). ap (λ (w : ℕ). part (view w)) word in
      (
        get (λ v. v.state) ∙ state,
        get (λ v. v.pins) ∙ omega (arith, pins, one_pin),
        get (λ v. v.exclusive) ∙ exclusive,
        get (λ v. v.shared) ∙ shared ∙ no_reader,
        ap (λ (d : Descriptor). d.tag) here,
        refl,
      )

  pub abort-IsGivenBack :
      (f : ℕ) (tag : BufferTag) (m : Manager Disk R)
      → word_of m f < Word.word_mod
      → IsGivenBack f tag m (abort_load_reservation env f tag m)
  unfolding abort_load_reservation release_free_frame reset_cleaner_candidate
  abort-IsGivenBack f tag m small =
      let untagged = record (m.descriptors f) { tag = no_tag } in
      let first = store m.descriptors f untagged in
      let same : (first f).control ≡ word_of m f =
        ap (λ (d : Descriptor). d.control) (store_self m.descriptors f untagged) in
      let d = operate Ops.release_to_free (first f) in
      let here = store_self first f d in
      let (state, pins, dirty, queued, active) =
        freed-fields (first f).control (subst (λ w. w < Word.word_mod) (sym same) small) in
      let word : (store first f d f).control
          ≡ after (first f).control (Ops.release_to_free (first f).control) =
        ap (λ (d : Descriptor). d.control) here in
      let get = λ (part : Fields → ℕ). ap (λ (w : ℕ). part (view w)) word in
      (
        get (λ v. v.state) ∙ state,
        get (λ v. v.pins) ∙ pins,
        get (λ v. v.dirty) ∙ dirty,
        ap (λ (d : Descriptor). d.tag) here
            ∙ ap (λ (d : Descriptor). d.tag) (store_self m.descriptors f untagged),
        refl,
        refl,
      )
