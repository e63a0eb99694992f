-- ===== src/Manager/DirtyWords.antt =====
-- How the operations of src/cpp/lib/buffer/frame_control.h move the dirty bit when they run alone.
use tele_path.Prelude.{
  ℕ, ◌+◌, ◌<◌, ◌≡◌, ◌≢◌, ◌⊎◌, inl, inr, refl, sym, ap, ◌∙◌, subst, Bool, true, false, not, ◌==◌,
  ◌&&◌, Option, none, some, bit_and, bit_or, ◌*◌, ◌^◌, if◌then◌else◌, arith, Bool-cases,
}
use tele_path.FrameControl.Word
use tele_path.FrameControl.Ops
use tele_path.FrameControl.Ops.{Attempt, leave, reload, swap, DiscardOutcome}
use tele_path.FrameControl.Masks
use tele_path.FrameControl.Fields.{Fields, Fits, view, view-Fits, pack-view}
use tele_path.FrameControl.Spec.{Op, transition, spec, written, Allowed}
use tele_path.Manager.Types.{after, returned}
use tele_path.Manager.Frames.{value_or_false}
use tele_path.Manager.Words.{next_word, next_fields, after-written, view-next, readers-view}

-- A 32-bit word that is dirty only while its page is resident.
pub record IsTidy (w : ℕ) : Type 0 where
  pub small : w < Word.word_mod
  pub resident : (view w).dirty ≡ 1 → (view w).state ≡ 2

-- The dirty bit as a number.
abbrev pub dirt : ℕ → ℕ
dirt w = (view w).dirty

-- What an operation that neither marks a page dirty nor forgets one needs of the word.
abbrev pub KeepsDirt : Op → Fields → Type 0
KeepsDirt Op.mark_dirty f = ◌≡◌ {A = Bool} true false
KeepsDirt Op.try_discard_pinned f = ◌≡◌ {A = Bool} true false
KeepsDirt (Op.complete_writeback succeeded) f = succeeded ≡ false
KeepsDirt Op.release_to_free f = f.state ≢ 2
KeepsDirt _ f = Unit {0}

abbrev SameDirt : Fields → Fields → Type 0
SameDirt f g = (g.dirty ≡ f.dirty) × (g.dirty ≡ 1 → g.state ≡ 2)

module _ (f g : Fields) (wake : Bool) (h : Fits f) (t : f.dirty ≡ 1 → f.state ≡ 2) where
  reserve_dirt : (popped : Bool) → spec (Op.try_reserve popped) f ≡ some (g, wake) → SameDirt f g
  unfolding spec
  reserve_dirt popped e = ground arith

  free_dirt : f.state ≢ 2 → spec Op.release_to_free f ≡ some (g, wake) → SameDirt f g
  unfolding spec
  free_dirt loaded e = ground arith

  failed_dirt : spec (Op.complete_writeback false) f ≡ some (g, wake) → SameDirt f g
  unfolding spec
  failed_dirt e = ground arith

spec-dirt :
    (op : Op) (f g : Fields) (wake : Bool)
    → Fits f
    → KeepsDirt op f
    → (f.dirty ≡ 1 → f.state ≡ 2)
    → spec op f ≡ some (g, wake)
    → SameDirt f g
unfolding spec
spec-dirt Op.mark_dirty f g wake h k t e = cc
spec-dirt Op.try_discard_pinned f g wake h k t e = cc
spec-dirt (Op.complete_writeback true) f g wake h k t e = cc
spec-dirt (Op.complete_writeback false) f g wake h k t e = failed_dirt f g wake h t e
spec-dirt Op.release_to_free f g wake h k t e = free_dirt f g wake h t k e
spec-dirt (Op.try_reserve popped) f g wake h k t e = reserve_dirt f g wake h t popped e
spec-dirt _ f g wake h k t e = ground arith

next-dirt :
    (f : Fields) (r : Option (Fields × Bool))
    → (f.dirty ≡ 1 → f.state ≡ 2)
    → ((g : Fields) (wake : Bool) → r ≡ some (g, wake) → SameDirt f g)
    → SameDirt f (next_fields f r)
next-dirt f none t keep = (refl, t)
next-dirt f (some (g, wake)) t keep = keep g wake refl

-- Such an operation keeps the dirty bit.
pub after-dirt :
    (op : Op) {A : Type 0} (a : Attempt A) (w : ℕ)
    → transition op w ≡ written a
    → IsTidy w
    → Allowed op (view w)
    → KeepsDirt op (view w)
    → IsTidy (after w a) × (dirt (after w a) ≡ dirt w)
after-dirt op a w e t allowed keeps =
    let moved : after w a ≡ next_word w (transition op w) =
      after-written w a ∙ ap (next_word w) (sym e) in
    let (fields, small) = view-next op w t.small allowed in
    let (same, resident) =
      next-dirt (view w) (spec op (view w)) t.resident
        (λ g wake e'. spec-dirt op (view w) g wake (view-Fits w) keeps t.resident e') in
    subst (λ v. IsTidy v × (dirt v ≡ dirt w)) (sym moved)
      (
        record {
          small = small;
          resident = subst (λ g. g.dirty ≡ 1 → g.state ≡ 2) (sym fields) resident;
        },
        ap (λ (g : Fields). g.dirty) fields ∙ same,
      )

-- The fields that an operation leaves, for one that always may run.
pub after-fields :
    (op : Op) {A : Type 0} (a : Attempt A) (w : ℕ)
    → transition op w ≡ written a
    → w < Word.word_mod
    → Allowed op (view w)
    → (view (after w a) ≡ next_fields (view w) (spec op (view w))) × (after w a < Word.word_mod)
after-fields op a w e small allowed =
    subst (λ v. (view v ≡ next_fields (view w) (spec op (view w))) × (v < Word.word_mod))
      (sym (after-written w a ∙ ap (next_word w) (sym e))) (view-next op w small allowed)

spec-mark :
    (f : Fields)
    → ((next_fields f (spec Op.mark_dirty f)).dirty ≡ (if f.state == 2 then 1 else f.dirty))
      × ((next_fields f (spec Op.mark_dirty f)).state ≡ f.state)
unfolding spec
spec-mark f = ground arith

marks-dirty :
    (w : ℕ)
    → IsTidy w
    → IsTidy (after w (Ops.mark_dirty w))
      × (dirt (after w (Ops.mark_dirty w)) ≡ (if (view w).state == 2 then 1 else dirt w))
unfolding transition
marks-dirty w t =
    let (fields, small) = after-fields Op.mark_dirty (Ops.mark_dirty w) w refl t.small tt in
    let (dirty, state) = spec-mark (view w) in
    let after_dirty = ap (λ (g : Fields). g.dirty) fields ∙ dirty in
    let after_state = ap (λ (g : Fields). g.state) fields ∙ state in
    let keep = t.resident in (record { small = small; resident = λ e. ground arith }, after_dirty)

mark_shape :
    (w : ℕ)
    → ((Word.is_resident w ≡ false) × (Ops.mark_dirty w ≡ leave none))
      ⊎ ((Word.is_resident w ≡ true)
          × ((Ops.mark_dirty w ≡ leave (some false))
              ⊎ ((next : ℕ) × (Ops.mark_dirty w ≡ swap next false (some (not (Word.is_dirty w)))))))
unfolding Ops.mark_dirty
mark_shape w =
    let marked = bit_or w Word.dirty in
    let next : ℕ = if Word.has_writeback w then bit_or marked Word.redirtied else marked in
    elim (Bool-cases (Word.is_resident w)) [
      | inl is_in ↦ inr (
        is_in,
        elim (Bool-cases (next == w)) [
          | inl same ↦ inl (rw (is_in, same) refl)
          | inr other ↦ inr (next, rw (is_in, other) refl)
        ],
      )
      | inr out ↦ inl (out, rw out refl)
    ]

-- MarkDirty reports exactly the pages that it makes dirty.
pub became-dirty :
    (w : ℕ)
    → IsTidy w
    → IsTidy (after w (Ops.mark_dirty w))
      × (dirt (after w (Ops.mark_dirty w))
          ≡ dirt w + (if value_or_false (returned none (Ops.mark_dirty w)) then 1 else 0))
became-dirty w t =
    let (state, pins, is_in, dirty, writeback) = readers-view w t.small in
    let bits = view-Fits w in
    let (tidy, marked) = marks-dirty w t in
    (
      tidy,
      elim (mark_shape w) [
        | inl (out, e) ↦ rw e (omega arith)
        | inr (resident, inl e) ↦
            let stays =
              subst (λ a. dirt (after w a) ≡ (if (view w).state == 2 then 1 else dirt w)) e
                marked in
            rw e (omega arith)
        | inr (resident, inr (next, e)) ↦
            subst
              (λ a. dirt (after w a) ≡ dirt w + (if value_or_false (returned none a) then 1 else 0))
              (sym e)
              (let moved =
                  subst (λ a. dirt (after w a) ≡ (if (view w).state == 2 then 1 else dirt w)) e
                    marked in
                ground (arith, bits.dirty))
      ],
    )

spec_complete :
    (succeeded : Bool) (f : Fields)
    → (f.dirty ≡ 1 → f.state ≡ 2)
    → ((next_fields f (spec (Op.complete_writeback succeeded) f)).dirty ≡ (
        if succeeded && f.state == 2 && f.dirty == 1 && f.redirtied == 0 && f.exclusive == 0
        then 0
        else f.dirty))
      × ((next_fields f (spec (Op.complete_writeback succeeded) f)).state ≡ f.state)
unfolding spec
spec_complete succeeded f t = ground arith

may_clear :
    (succeeded : Bool) (w : ℕ)
    → w < Word.word_mod
    → Ops.may_clear_dirty succeeded w ≡ (
        succeeded
        && (view w).state == 2
        && (view w).dirty == 1
        && (view w).redirtied == 0
        && (view w).exclusive == 0)
unfolding Ops.may_clear_dirty
may_clear succeeded w small =
    let (state, pins, is_in, dirty, writeback) = readers-view w small in
    let bits = view-Fits w in
    let masked =
      subst
        (λ v.
          bit_and v (bit_or Word.redirtied Word.exclusive)
          ≡ (view w).redirtied * 2 ^ 6 + (view w).exclusive * 2 ^ 7)
        (pack-view w small) (Masks.and_redirtied_exclusive (view w) bits) in
    rw (is_in, dirty) (ground arith)

-- CompleteWriteback reports exactly the pages that it marks clean.
pub completes-dirt :
    (succeeded : Bool) (w : ℕ)
    → IsTidy w
    → IsTidy (after w (Ops.complete_writeback_word succeeded w))
      × (dirt (after w (Ops.complete_writeback_word succeeded w))
            + (if (Ops.writeback_completion succeeded w).cleared_dirty then 1 else 0)
          ≡ dirt w)
unfolding transition Ops.writeback_completion
completes-dirt succeeded w t =
    let (fields, small) =
      after-fields (Op.complete_writeback succeeded) (Ops.complete_writeback_word succeeded w) w
        refl t.small tt in
    let (dirty, state) = spec_complete succeeded (view w) t.resident in
    let after_dirty = ap (λ (g : Fields). g.dirty) fields ∙ dirty in
    let after_state = ap (λ (g : Fields). g.state) fields ∙ state in
    let keep = t.resident in
    let cleared = may_clear succeeded w t.small in
    (record { small = small; resident = λ e. ground arith }, rw cleared (ground arith))

pub zero-IsTidy : IsTidy 0
unfolding view
zero-IsTidy = record { small = omega arith; resident = λ e. absurd (omega arith) }

pub no_dirt : dirt 0 ≡ 0
unfolding view
no_dirt = refl

discard_shape :
    (w : ℕ)
    → ((returned (DiscardOutcome.busy, 0) (Ops.try_discard_pinned w)).0 ≡ DiscardOutcome.discarded)
    → Ops.try_discard_pinned w ≡ swap 0 (Word.has_any w Word.waiters) (DiscardOutcome.discarded, w)
unfolding Ops.try_discard_pinned
discard_shape w e = ground arith

-- TryDiscardPinned leaves the empty word when it succeeds, and gives the word that it found.
pub discards-dirt :
    (w : ℕ)
    → ((returned (DiscardOutcome.busy, 0) (Ops.try_discard_pinned w)).0 ≡ DiscardOutcome.discarded)
    → IsTidy (after w (Ops.try_discard_pinned w))
      × (dirt (after w (Ops.try_discard_pinned w)) ≡ 0)
      × ((returned (DiscardOutcome.busy, 0) (Ops.try_discard_pinned w)).1 ≡ w)
discards-dirt w e = rw (discard_shape w e) (zero-IsTidy, no_dirt, refl)
