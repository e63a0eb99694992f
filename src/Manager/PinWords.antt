-- ===== src/Manager/PinWords.antt =====
-- The operations of src/cpp/lib/buffer/frame_control.h by which a frame is pinned, reserved and published,
-- when they run alone.
use tele_path.Prelude.{
  ℕ, ◌+◌, ◌-◌, ◌<◌, ◌≡◌, refl, sym, ap, ◌∙◌, subst, Bool, false, bit_and, bit_or, some,
  if◌then◌else◌, arith,
}
use tele_path.FrameControl.Word
use tele_path.FrameControl.Ops
use tele_path.FrameControl.Ops.{Attempt, leave, reload, swap, ReserveOutcome}
use tele_path.FrameControl.Fields.{Fields, Fits, pack, view, view-Fits, pack-view}
use tele_path.FrameControl.Masks
use tele_path.FrameControl.Spec.{Op, transition, spec, Allowed}
use tele_path.Manager.Types.{after, returned}
use tele_path.Manager.Words.{swapped-view, next_fields, after-written, view-next}

abbrev pub reservation_of : Bool → ℕ → ReserveOutcome × ℕ
reservation_of popped w = returned (ReserveOutcome.rejected, 0) (Ops.try_reserve popped w)

reserve_shape :
    (popped : Bool) (w : ℕ)
    → (reservation_of popped w).0 ≡ ReserveOutcome.reserved
    → (next : ℕ) × (Ops.try_reserve popped w ≡ swap next false (ReserveOutcome.reserved, w))
unfolding Ops.try_reserve
reserve_shape popped w e = (
  bit_or (bit_or (bit_and w Word.waiters) Word.pin_one)
      (Word.state_code Word.BufferFrameState.loading),
  ground arith,
)

spec-reserve :
    (popped : Bool) (f g : Fields) (wake : Bool)
    → spec (Op.try_reserve popped) f ≡ some (g, wake)
    → (g.state ≡ 1) × (g.pins ≡ 1) × (g.exclusive ≡ 0) × (g.shared ≡ 0) × (f.pins ≡ 0)
unfolding spec
spec-reserve popped f g wake e = ground arith

-- A reserved frame is loading, with one pin and no latch, and the word that was observed is the old
-- one.
pub reserved-fields :
    (popped : Bool) (w : ℕ)
    → w < Word.word_mod
    → (reservation_of popped w).0 ≡ ReserveOutcome.reserved
    → let v = view (after w (Ops.try_reserve popped w)) in
      (v.state ≡ 1)
      × (v.pins ≡ 1)
      × (v.exclusive ≡ 0)
      × (v.shared ≡ 0)
      × ((reservation_of popped w).1 ≡ w)
      × (after w (Ops.try_reserve popped w) < Word.word_mod)
unfolding transition
reserved-fields popped w small e =
    let (next, shape) = reserve_shape popped w e in
    let (g, spec_e, fields, bound) =
      swapped-view (Op.try_reserve popped) (Ops.try_reserve popped w) w next false
        (ReserveOutcome.reserved, w) refl shape small tt in
    let (state, pins, exclusive, shared, before) = spec-reserve popped (view w) g false spec_e in
    rw shape (
      ap (λ (f : Fields). f.state) fields ∙ state,
      ap (λ (f : Fields). f.pins) fields ∙ pins,
      ap (λ (f : Fields). f.exclusive) fields ∙ exclusive,
      ap (λ (f : Fields). f.shared) fields ∙ shared,
      refl,
      bound,
    )

spec-pin :
    (f g : Fields) (wake : Bool)
    → spec Op.try_pin_resident f ≡ some (g, wake)
    → (f.state ≡ 2) × (g.state ≡ 2) × (g.pins ≡ f.pins + 1)
unfolding spec
spec-pin f g wake e = ground arith

-- The word that TryPinResident swaps in is resident with one pin more.
pub pinned-fields :
    (w next : ℕ) (wake r : Bool)
    → w < Word.word_mod
    → Ops.try_pin_resident w ≡ swap next wake r
    → ((view next).state ≡ 2) × ((view next).pins ≡ (view w).pins + 1) × (next < Word.word_mod)
unfolding transition
pinned-fields w next wake r small shape =
    let (g, spec_e, fields, bound) =
      swapped-view Op.try_pin_resident (Ops.try_pin_resident w) w next wake r refl shape small tt in
    let (before, state, pins) = spec-pin (view w) g wake spec_e in
    (ap (λ (f : Fields). f.state) fields ∙ state, ap (λ (f : Fields). f.pins) fields ∙ pins, bound)

spec-publish :
    (release : Bool) (f : Fields)
    → ((next_fields f (spec (Op.publish_resident release) f)).state ≡ 2)
      × ((next_fields f (spec (Op.publish_resident release) f)).pins
          ≡ f.pins - (if release then 1 else 0))
      × ((next_fields f (spec (Op.publish_resident release) f)).exclusive ≡ f.exclusive)
      × ((next_fields f (spec (Op.publish_resident release) f)).shared ≡ f.shared)
unfolding spec
spec-publish release f = ground arith

-- A published frame is resident; its pins stay but for the one that is released.
pub published-fields :
    (release : Bool) (w : ℕ)
    → w < Word.word_mod
    → Allowed (Op.publish_resident release) (view w)
    → let v = view (after w (Ops.publish_resident release w)) in
      (v.state ≡ 2)
      × (v.pins ≡ (view w).pins - (if release then 1 else 0))
      × (v.exclusive ≡ (view w).exclusive)
      × (v.shared ≡ (view w).shared)
unfolding transition
published-fields release w small held =
    let moved = after-written w (Ops.publish_resident release w) in
    let (fields, bound) = view-next (Op.publish_resident release) w small held in
    let (state, pins, exclusive, shared) = spec-publish release (view w) in
    subst
      (λ v.
        ((view v).state ≡ 2)
        × ((view v).pins ≡ (view w).pins - (if release then 1 else 0))
        × ((view v).exclusive ≡ (view w).exclusive)
        × ((view v).shared ≡ (view w).shared))
      (sym moved)
      (
        ap (λ (f : Fields). f.state) fields ∙ state,
        ap (λ (f : Fields). f.pins) fields ∙ pins,
        ap (λ (f : Fields). f.exclusive) fields ∙ exclusive,
        ap (λ (f : Fields). f.shared) fields ∙ shared,
      )

spec-free :
    (f : Fields)
    → ((next_fields f (spec Op.release_to_free f)).state ≡ 0)
      × ((next_fields f (spec Op.release_to_free f)).pins ≡ 0)
      × ((next_fields f (spec Op.release_to_free f)).dirty ≡ 0)
      × ((next_fields f (spec Op.release_to_free f)).queued ≡ 0)
      × ((next_fields f (spec Op.release_to_free f)).active ≡ 0)
unfolding spec
spec-free f = ground arith

-- A freed frame has no page, no pin and no writeback.
pub freed-fields :
    (w : ℕ)
    → w < Word.word_mod
    → let v = view (after w (Ops.release_to_free w)) in
      (v.state ≡ 0) × (v.pins ≡ 0) × (v.dirty ≡ 0) × (v.queued ≡ 0) × (v.active ≡ 0)
unfolding transition
freed-fields w small =
    let moved = after-written w (Ops.release_to_free w) in
    let (fields, bound) = view-next Op.release_to_free w small tt in
    let (state, pins, dirty, queued, active) = spec-free (view w) in
    subst
      (λ v.
        ((view v).state ≡ 0)
        × ((view v).pins ≡ 0)
        × ((view v).dirty ≡ 0)
        × ((view v).queued ≡ 0)
        × ((view v).active ≡ 0))
      (sym moved)
      (
        ap (λ (f : Fields). f.state) fields ∙ state,
        ap (λ (f : Fields). f.pins) fields ∙ pins,
        ap (λ (f : Fields). f.dirty) fields ∙ dirty,
        ap (λ (f : Fields). f.queued) fields ∙ queued,
        ap (λ (f : Fields). f.active) fields ∙ active,
      )

spec-acquire :
    (f : Fields)
    → f.exclusive ≡ 0
    → f.shared ≡ 0
    → ((next_fields f (spec Op.try_acquire_exclusive f)).state ≡ f.state)
      × ((next_fields f (spec Op.try_acquire_exclusive f)).pins ≡ f.pins)
      × ((next_fields f (spec Op.try_acquire_exclusive f)).exclusive ≡ 1)
      × ((next_fields f (spec Op.try_acquire_exclusive f)).shared ≡ 0)
unfolding spec
spec-acquire f no_writer no_reader = ground arith

not_blocked :
    (f : Fields)
    → Fits f
    → f.exclusive ≡ 0
    → f.shared ≡ 0
    → Ops.acquire_exclusive_blocked (pack f) ≡ false
unfolding Ops.acquire_exclusive_blocked
not_blocked f h no_writer no_reader = ground (arith, Masks.and_latch f h)

-- A frame without a latch does not make AcquireExclusive wait; it keeps its state and pins, and the
-- latch is its writer's.
pub acquired-fields :
    (w : ℕ)
    → w < Word.word_mod
    → (view w).exclusive ≡ 0
    → (view w).shared ≡ 0
    → let v = view (after w (Ops.try_acquire_exclusive w)) in
      (Ops.acquire_exclusive_blocked w ≡ false)
      × (after w (Ops.try_acquire_exclusive w) < Word.word_mod)
      × (v.state ≡ (view w).state)
      × (v.pins ≡ (view w).pins)
      × (v.exclusive ≡ 1)
      × (v.shared ≡ 0)
unfolding transition
acquired-fields w small no_writer no_reader =
    let moved = after-written w (Ops.try_acquire_exclusive w) in
    let (fields, bound) = view-next Op.try_acquire_exclusive w small tt in
    let (state, pins, exclusive, shared) = spec-acquire (view w) no_writer no_reader in
    let free =
      subst (λ v. Ops.acquire_exclusive_blocked v ≡ false) (pack-view w small)
        (not_blocked (view w) (view-Fits w) no_writer no_reader) in
    let get = λ (part : Fields → ℕ). ap (λ (v : ℕ). part (view v)) moved ∙ ap part fields in
    (
      free,
      subst (λ v. v < Word.word_mod) (sym moved) bound,
      get (λ v. v.state) ∙ state,
      get (λ v. v.pins) ∙ pins,
      get (λ v. v.exclusive) ∙ exclusive,
      get (λ v. v.shared) ∙ shared,
    )
