-- ===== src/FrameControl/Wakeups.antt =====
-- The sleepers of WaitWhile in src/cpp/lib/buffer/frame_control.h.
use tele_path.Prelude.{
  ℕ, ◌<◌, ◌≡◌, sym, ◌∙◌, ap, Bool, true, false, some, ◌==◌, ◌||◌, not, inl, inr, ◌⊎◌, leb, arith,
}
use tele_path.FrameControl.Fields.{Fields, Fits, pack, view, pack-view, view-Fits}
use tele_path.FrameControl.Masks
use tele_path.FrameControl.Ops
use tele_path.FrameControl.Refinement.{transition-spec, fields_after}
use tele_path.FrameControl.Spec.{Op, transition, spec, Allowed}
use tele_path.FrameControl.Word

-- What a thread waits for: a latch, the end of a writeback, or the end of a load (whose test also
-- reads the frame's tag, which no operation on the word changes).
pub data Wait : Type 0 where
  for_shared for_exclusive for_writeback for_load : Wait

pub blocked : Wait → ℕ → Bool
blocked for_shared w = Ops.acquire_shared_blocked w
blocked for_exclusive w = Ops.acquire_exclusive_blocked w
blocked for_writeback w = Word.has_writeback w
blocked for_load w = Word.state w == Word.state_code Word.loading

blocks : Wait → Fields → Bool
blocks for_shared f = not (f.exclusive == 0) || leb 0xff f.shared
blocks for_exclusive f = not (f.exclusive == 0) || not (f.shared == 0)
blocks for_writeback f = not (f.queued == 0) || not (f.active == 0)
blocks for_load f = f.state == 1

blocked-pack : (p : Wait) (f : Fields) → Fits f → blocked p (pack f) ≡ blocks p f
unfolding blocked blocks Ops.acquire_shared_blocked Ops.acquire_exclusive_blocked Word.has_writeback
    Word.state
blocked-pack for_shared f h = ground (arith, Masks.and_exclusive f h, Masks.and_shared f h)
blocked-pack for_exclusive f h = ground (arith, Masks.and_latch f h)
blocked-pack for_writeback f h = ground (arith, Masks.and_writeback f h)
blocked-pack for_load f h = ground (arith, Masks.and_state f h)

-- A write of the operation that ends what `p` waits for wakes the sleepers.
abbrev Wakes : Wait → Op → Type 0
Wakes p op =
    (f f' : Fields) (wake : Bool)
    → Fits f
    → Allowed op f
    → f.waiters ≡ 1
    → spec op f ≡ some (f', wake)
    → blocks p f ≡ true
    → blocks p f' ≡ false
    → wake ≡ true

shared-Wakes : (op : Op) → Wakes for_shared op
unfolding spec blocks
shared-Wakes Op.unpin f f' wake h a w e b n = ground arith
shared-Wakes (Op.publish_resident true) f f' wake h a w e b n = ground arith
shared-Wakes _ f f' wake h a w e b n = ground arith

exclusive-Wakes : (op : Op) → Wakes for_exclusive op
unfolding spec blocks
exclusive-Wakes Op.unpin f f' wake h a w e b n = ground arith
exclusive-Wakes (Op.publish_resident true) f f' wake h a w e b n = ground arith
exclusive-Wakes _ f f' wake h a w e b n = ground arith

reserve_writeback : (popped : Bool) → Wakes for_writeback (Op.try_reserve popped)
unfolding spec blocks
reserve_writeback popped f f' wake h a w e b n = ground arith

writeback-Wakes : (op : Op) → Wakes for_writeback op
unfolding spec blocks
writeback-Wakes (Op.try_reserve popped) f f' wake h a w e b n =
    reserve_writeback popped f f' wake h a w e b n
writeback-Wakes Op.unpin f f' wake h a w e b n = ground arith
writeback-Wakes (Op.publish_resident true) f f' wake h a w e b n = ground arith
writeback-Wakes _ f f' wake h a w e b n = ground arith

load-Wakes : (op : Op) → Wakes for_load op
unfolding spec blocks
load-Wakes Op.unpin f f' wake h a w e b n = ground arith
load-Wakes (Op.publish_resident true) f f' wake h a w e b n = ground arith
load-Wakes _ f f' wake h a w e b n = ground arith

spec-Wakes : (p : Wait) (op : Op) → Wakes p op
spec-Wakes for_shared = shared-Wakes
spec-Wakes for_exclusive = exclusive-Wakes
spec-Wakes for_writeback = writeback-Wakes
spec-Wakes for_load = load-Wakes

-- The bit that announces sleepers goes only with a wake.
spec-keeps :
    (op : Op) (f f' : Fields) (wake : Bool)
    → Fits f
    → f.waiters ≡ 1
    → spec op f ≡ some (f', wake)
    → f'.waiters ≡ 0
    → wake ≡ true
unfolding spec
spec-keeps Op.unpin f f' wake h w e c = ground arith
spec-keeps _ f f' wake h w e c = ground arith

-- The fields that an operation leaves fit their places.
pub spec-Fits :
    (op : Op) (f f' : Fields) (wake : Bool)
    → Fits f
    → Allowed op f
    → spec op f ≡ some (f', wake)
    → Fits f'
unfolding spec
spec-Fits Op.unpin f f' wake h a e = ground arith
spec-Fits (Op.publish_resident true) f f' wake h a e = ground arith
spec-Fits _ f f' wake h a e = ground arith

-- No wake-up is lost: where a 32-bit word announces sleepers, an operation whose caller holds what it
-- drops, and that ends what a sleeper waits for or takes the announcement away, wakes all sleepers.
pub transition-wakes :
    (op : Op) (p : Wait) {w w' : ℕ} {wake : Bool}
    → w < Word.word_mod
    → Allowed op (view w)
    → Word.has_any w Word.waiters ≡ true
    → transition op w ≡ some (w', wake)
    → ((blocked p w ≡ true) × (blocked p w' ≡ false)) ⊎ (Word.has_any w' Word.waiters ≡ false)
    → wake ≡ true
transition-wakes op p {w} {w'} {wake} small a announced e ends =
    let f = view w in
    let h = view-Fits w in
    let word = pack-view w small in
    let met = transition-spec op f h a in
    let (f', spec_e, w_e) =
      fields_after op f w' wake (spec op f) (sym met ∙ ap (transition op) word ∙ e) in
    let h' = spec-Fits op f f' wake h a spec_e in
    let waiting : f.waiters ≡ 1 = ground (arith, Masks.and_waiters f h) in
    elim ends [
      | inl (before, after) ↦
          spec-Wakes p op f f' wake h a waiting spec_e
            (sym (blocked-pack p f h) ∙ ap (blocked p) word ∙ before)
            (sym (blocked-pack p f' h') ∙ ap (blocked p) (sym w_e) ∙ after)
      | inr gone ↦
          spec-keeps op f f' wake h waiting spec_e (ground (arith, Masks.and_waiters f' h'))
    ]
