-- ===== src/Manager/Words.antt =====
-- The operations of src/cpp/lib/buffer/frame_control.h when no other thread runs between the load and
-- the swap: what the word holds afterwards, on the fields that it packs.
use tele_path.Prelude.{
  ℕ, ◌<◌, ◌≡◌, refl, sym, ap, ◌∙◌, subst, Bool, ◌==◌, ◌||◌, Option, none, some, arith,
}
use mathlib.Core.Option
use tele_path.FrameControl.Word
use tele_path.FrameControl.Ops.{Attempt, leave, reload, swap}
use tele_path.FrameControl.Fields.{Fields, Fits, pack, view, view-Fits, pack-view, pack-lt}
use tele_path.FrameControl.Spec.{Op, transition, spec, written, packed, Allowed}
use tele_path.FrameControl.Refinement.{transition-spec, fields_after}
use tele_path.FrameControl.Readers.{readers-pack}
use tele_path.FrameControl.Wakeups.{spec-Fits}
use tele_path.Manager.Types.{after}

abbrev pub next_word : ℕ → Option (ℕ × Bool) → ℕ
next_word w none = w
next_word w (some (next, wake)) = next

abbrev pub next_fields : Fields → Option (Fields × Bool) → Fields
next_fields f none = f
next_fields f (some (g, wake)) = g

pub after-written : {A : Type 0} (w : ℕ) (a : Attempt A) → after w a ≡ next_word w (written a)
after-written w (leave r) = refl
after-written w reload = refl
after-written w (swap next wake r) = refl

view-pack : (f : Fields) → Fits f → view (pack f) ≡ f
unfolding view pack
view-pack f h =
    let state : (view (pack f)).state ≡ f.state = omega arith in
    let dirty : (view (pack f)).dirty ≡ f.dirty = omega arith in
    let queued : (view (pack f)).queued ≡ f.queued = omega arith in
    let active : (view (pack f)).active ≡ f.active = omega arith in
    let prefetched : (view (pack f)).prefetched ≡ f.prefetched = omega arith in
    let redirtied : (view (pack f)).redirtied ≡ f.redirtied = omega arith in
    let exclusive : (view (pack f)).exclusive ≡ f.exclusive = omega arith in
    let shared : (view (pack f)).shared ≡ f.shared = omega arith in
    let waiters : (view (pack f)).waiters ≡ f.waiters = omega arith in
    let pins : (view (pack f)).pins ≡ f.pins = omega arith in
    λ i. record {
      state = state i;
      dirty = dirty i;
      queued = queued i;
      active = active i;
      prefetched = prefetched i;
      redirtied = redirtied i;
      exclusive = exclusive i;
      shared = shared i;
      waiters = waiters i;
      pins = pins i;
    }

next-packed :
    (f : Fields) (r : Option (Fields × Bool))
    → Fits f
    → ((g : Fields) (wake : Bool) → r ≡ some (g, wake) → Fits g)
    → (view (next_word (pack f) (Option.map packed r)) ≡ next_fields f r)
      × (next_word (pack f) (Option.map packed r) < Word.word_mod)
next-packed f none h keep = (view-pack f h, pack-lt f h)
next-packed f (some (g, wake)) h keep =
    let fits = keep g wake refl in (view-pack g fits, pack-lt g fits)

-- On a 32-bit word, and where the caller holds what it drops, an operation leaves the fields of its
-- specification, in a 32-bit word.
pub view-next :
    (op : Op) (w : ℕ)
    → w < Word.word_mod
    → Allowed op (view w)
    → (view (next_word w (transition op w)) ≡ next_fields (view w) (spec op (view w)))
      × (next_word w (transition op w) < Word.word_mod)
view-next op w small a =
    let f = view w in
    let h = view-Fits w in
    let same = pack-view w small in
    let met = sym (ap (transition op) same) ∙ transition-spec op f h a in
    let (fields, bound) = next-packed f (spec op f) h (λ g wake e. spec-Fits op f g wake h a e) in
    subst
      (λ v.
        (view (next_word v (transition op w)) ≡ next_fields f (spec op f))
        × (next_word v (transition op w) < Word.word_mod))
      same
      (subst
        (λ t.
          (view (next_word (pack f) t) ≡ next_fields f (spec op f))
          × (next_word (pack f) t < Word.word_mod))
        (sym met) (fields, bound))

-- The readers of a 32-bit word give its fields.
pub readers-view :
    (w : ℕ)
    → w < Word.word_mod
    → (Word.state w ≡ (view w).state)
      × (Word.pins w ≡ (view w).pins)
      × (Word.is_resident w ≡ ((view w).state == 2))
      × (Word.is_dirty w ≡ ((view w).dirty == 1))
      × (Word.has_writeback w ≡ ((view w).queued == 1 || (view w).active == 1))
readers-view w small =
    let (state, pins, shared, resident, dirty, writeback, moved) =
      readers-pack (view w) Word.BufferFrameState.free (view-Fits w) in
    subst
      (λ v.
        (Word.state v ≡ (view w).state)
        × (Word.pins v ≡ (view w).pins)
        × (Word.is_resident v ≡ ((view w).state == 2))
        × (Word.is_dirty v ≡ ((view w).dirty == 1))
        × (Word.has_writeback v ≡ ((view w).queued == 1 || (view w).active == 1)))
      (pack-view w small) (state, pins, resident, dirty, writeback)

-- An operation that swaps in a word swaps in the fields that its specification gives.
pub swapped-view :
    (op : Op) {A : Type 0} (a : Attempt A) (w next : ℕ) (wake : Bool) (r : A)
    → transition op w ≡ written a
    → a ≡ swap next wake r
    → w < Word.word_mod
    → Allowed op (view w)
    → (g : Fields) × (spec op (view w) ≡ some (g, wake)) × (view next ≡ g) × (next < Word.word_mod)
swapped-view op a w next wake r e shape small allowed =
    let h = view-Fits w in
    let met = transition-spec op (view w) h allowed in
    let written_e : transition op w ≡ some (next, wake) = e ∙ ap written shape in
    let (g, spec_e, next_e) =
      fields_after op (view w) next wake (spec op (view w))
        (sym met ∙ ap (transition op) (pack-view w small) ∙ written_e) in
    let fits = spec-Fits op (view w) g wake h allowed spec_e in
    (
      g,
      spec_e,
      ap view next_e ∙ view-pack g fits,
      subst (λ v. v < Word.word_mod) (sym next_e) (pack-lt g fits),
    )
