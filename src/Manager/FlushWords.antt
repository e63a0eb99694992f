-- ===== src/Manager/FlushWords.antt =====
-- The control word of a frame through a writeback of src/cpp/lib/buffer/buffer_manager_flush.cc, when no
-- other thread changes it.
use tele_path.Prelude.{ℕ, ◌<◌, ◌≡◌, refl, ap, ◌∙◌, Bool, true, false, if◌then◌else◌, arith}
use tele_path.FrameControl.Word
use tele_path.FrameControl.Ops
use tele_path.FrameControl.Ops.{leave, swap, queued, not_dirty, pending}
use tele_path.FrameControl.Fields.{Fields, view}
use tele_path.FrameControl.Spec.{Op, transition, spec}
use tele_path.Manager.Types.{after, returned}
use tele_path.Manager.Words.{next_fields, readers-view}
use tele_path.Manager.DirtyWords.{after-fields}

-- A word of a resident page without a writeback and an exclusive latch.
pub record IsIdle (w bit : ℕ) : Type 0 where
  pub small : w < Word.word_mod
  pub state : (view w).state ≡ 2
  pub dirty : (view w).dirty ≡ bit
  pub queued : (view w).queued ≡ 0
  pub active : (view w).active ≡ 0
  pub exclusive : (view w).exclusive ≡ 0

-- The word after the queueing, the start and the end of a writeback.
abbrev pub written_back : Bool → ℕ → ℕ
written_back succeeded w =
    let claimed = after w (Ops.try_queue_writeback false w) in
    let begun = after claimed (Ops.begin_writeback claimed) in
    after begun (Ops.complete_writeback_word succeeded begun)

-- Whether nothing stands in the way of a flush.
pub queues-dirty :
    (w : ℕ) → IsIdle w 1 → returned pending (Ops.try_queue_writeback false w) ≡ queued
unfolding Ops.try_queue_writeback
queues-dirty w idle =
    let (state, pins, is_in, dirty, writeback) = readers-view w idle.small in
    let none_pending : Word.has_writeback w ≡ false =
      writeback ∙ ground (arith, idle.queued, idle.active) in
    let resident : Word.is_resident w ≡ true = is_in ∙ ground (arith, idle.state) in
    let is_dirty : Word.is_dirty w ≡ true = dirty ∙ ground (arith, idle.dirty) in
    rw (none_pending, resident, is_dirty) refl

pub skips-clean :
    (w : ℕ) → IsIdle w 0 → returned pending (Ops.try_queue_writeback false w) ≡ not_dirty
unfolding Ops.try_queue_writeback
skips-clean w idle =
    let (state, pins, is_in, dirty, writeback) = readers-view w idle.small in
    let none_pending : Word.has_writeback w ≡ false =
      writeback ∙ ground (arith, idle.queued, idle.active) in
    let resident : Word.is_resident w ≡ true = is_in ∙ ground (arith, idle.state) in
    let is_dirty : Word.is_dirty w ≡ false = dirty ∙ ground (arith, idle.dirty) in
    rw (none_pending, resident, is_dirty) refl

abbrev flushed_fields : Bool → Fields → Fields
flushed_fields succeeded f =
    let claimed = next_fields f (spec (Op.try_queue_writeback false) f) in
    let begun = next_fields claimed (spec Op.begin_writeback claimed) in
    next_fields begun (spec (Op.complete_writeback succeeded) begun)

spec_flush :
    (succeeded : Bool) (f : Fields)
    → f.state ≡ 2
    → f.dirty ≡ 1
    → f.queued ≡ 0
    → f.active ≡ 0
    → f.exclusive ≡ 0
    → let g = flushed_fields succeeded f in
      (g.state ≡ 2)
      × (g.dirty ≡ (if succeeded then 0 else 1))
      × (g.queued ≡ 0)
      × (g.active ≡ 0)
      × (g.exclusive ≡ 0)
unfolding spec
spec_flush succeeded f in_state is_dirty idle_queue idle_disk unlatched = ground arith

-- A writeback that is not disturbed leaves the page resident and without a writeback, clean if the
-- write succeeded and dirty if it failed.
pub written_back-IsIdle :
    (succeeded : Bool) (w : ℕ)
    → IsIdle w 1
    → IsIdle (written_back succeeded w) (if succeeded then 0 else 1)
unfolding transition
written_back-IsIdle succeeded w idle =
    let claimed = after w (Ops.try_queue_writeback false w) in
    let (first, claimed_small) =
      after-fields (Op.try_queue_writeback false) (Ops.try_queue_writeback false w) w refl
        idle.small tt in
    let begun = after claimed (Ops.begin_writeback claimed) in
    let (second, begun_small) =
      after-fields Op.begin_writeback (Ops.begin_writeback claimed) claimed refl claimed_small tt in
    let (third, small) =
      after-fields (Op.complete_writeback succeeded) (Ops.complete_writeback_word succeeded begun)
        begun refl begun_small tt in
    let fields =
      third
      ∙ ap (λ v. next_fields v (spec (Op.complete_writeback succeeded) v))
          (second ∙ ap (λ v. next_fields v (spec Op.begin_writeback v)) first) in
    let (in_state, bit, idle_queue, idle_disk, unlatched) =
      spec_flush succeeded (view w) idle.state idle.dirty idle.queued idle.active idle.exclusive in
    record {
      small = small;
      state = ap (λ (f : Fields). f.state) fields ∙ in_state;
      dirty = ap (λ (f : Fields). f.dirty) fields ∙ bit;
      queued = ap (λ (f : Fields). f.queued) fields ∙ idle_queue;
      active = ap (λ (f : Fields). f.active) fields ∙ idle_disk;
      exclusive = ap (λ (f : Fields). f.exclusive) fields ∙ unlatched;
    }
