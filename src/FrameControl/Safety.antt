-- ===== src/FrameControl/Safety.antt =====
-- What holds of a frame under every interleaving of the operations of
-- src/cpp/lib/buffer/frame_control.h.
use tele_path.Prelude.{ℕ, ◌+◌, ◌≤◌, ◌≡◌, ◌⊎◌, refl, sym, ◌∙◌, ap, Bool, true, false, some, arith}
use tele_path.FrameControl.Fields.{Fields, pack}
use tele_path.FrameControl.Spec.{Op, transition, spec, Allowed, no_fields}
use tele_path.FrameControl.Masks
use tele_path.FrameControl.Word.{pins, shared_holders, max_pins, max_shared, is_resident, is_dirty}
use tele_path.FrameControl.Refinement.{transition-spec, fields_after}
use tele_path.FrameControl.System.{
  Ghost, Frame, Permitted, effect, Accounts, Inv, Step, operate, modify, Reach, here, next, fresh,
}

-- What a caller holds is what its operation needs to find in the word.
Permitted-Allowed :
    (op : Op) (f : Fields) (g : Ghost) → Accounts f g → Permitted op g → Allowed op f
Permitted-Allowed (Op.publish_resident true) f g v p = omega arith
Permitted-Allowed Op.release_shared f g v p = omega arith
Permitted-Allowed _ f g v p = tt

spec-Accounts :
    (op : Op) (f : Fields) (g : Ghost) (torn : ℕ) (f' : Fields) (wake : Bool)
    → Accounts f g
    → Permitted op g
    → spec op f ≡ some (f', wake)
    → Accounts f' (effect op torn g)
unfolding spec
spec-Accounts Op.try_pin_resident f g torn f' wake v p e = ground arith
spec-Accounts Op.unpin f g torn f' wake v p e = ground arith
spec-Accounts (Op.try_reserve popped) f g torn f' wake v p e = ground arith
spec-Accounts (Op.publish_resident true) f g torn f' wake v p e = ground arith
spec-Accounts (Op.publish_resident false) f g torn f' wake v p e = ground arith
spec-Accounts _ f g torn f' wake v p e = ground arith

-- Every step of every thread keeps the accounts.
pub Step-Inv : {s t : Frame} → Step s t → Inv s → Inv t
Step-Inv {s} (operate op torn w wake p e eq) (f, word, v) =
    let met = transition-spec op f v.fits (Permitted-Allowed op f s.ghost v p) in
    let (f', spec_e, w_e) =
      fields_after op f w wake (spec op f) (sym met ∙ ap (transition op) (sym word) ∙ e) in
    let after = spec-Accounts op f s.ghost torn f' wake v p spec_e in rw eq (f', w_e, after)
Step-Inv (modify page p eq) (f, word, v) = rw eq (f, word, ground arith)

pub Reach-Inv : {s t : Frame} → Inv s → Reach s t → Inv t
Reach-Inv i here = i
Reach-Inv i (next r st) = Step-Inv st (Reach-Inv i r)

fresh-Inv : (disk : ℕ) → Inv (fresh disk)
unfolding pack
fresh-Inv disk = (no_fields, refl, ground arith)

claim_idle :
    (popped : Bool) (f : Fields) (g : Ghost) (f' : Fields) (wake : Bool)
    → Accounts f g
    → spec (Op.try_reserve popped) f ≡ some (f', wake)
    → (g.pinners ≡ 0)
      × (g.loaders ≡ 0)
      × (g.readers ≡ 0)
      × (g.writers ≡ 0)
      × (g.queued_tasks ≡ 0)
      × (g.active_tasks ≡ 0)
      × ((f.state ≡ 2 → ⊥) ⊎ (g.page ≡ g.disk))
unfolding spec
claim_idle popped f g f' wake v e = ground arith

module _ {disk : ℕ} {s : Frame} (r : Reach (fresh disk) s) where
  -- In every interleaving the word's pin count and shared count are the numbers of holders, so
  -- neither ever overflows, at most one thread holds the exclusive latch, and none shares it then.
  pub Reach-counts :
      (pins (s.word) ≡ s.ghost.pinners + s.ghost.loaders)
      × (shared_holders (s.word) ≡ s.ghost.readers)
      × (s.ghost.pinners + s.ghost.loaders ≤ max_pins)
      × (s.ghost.readers ≤ max_shared)
      × (s.ghost.writers ≤ 1)
      × ((s.ghost.writers ≡ 0) ⊎ (s.ghost.readers ≡ 0))
  unfolding pins shared_holders
  Reach-counts =
      let (f, word, v) = Reach-Inv (fresh-Inv disk) r in
      ground (arith, Masks.and_pins f v.fits, Masks.and_shared f v.fits)

  -- In every interleaving, a resident page that is clean, and that no writer has changed since it
  -- took the latch, has the bytes that are on disk.
  pub Reach-clean :
      is_resident (s.word) ≡ true
      → is_dirty (s.word) ≡ false
      → s.ghost.touched ≡ 0
      → s.ghost.page ≡ s.ghost.disk
  unfolding is_resident is_dirty
  Reach-clean resident clean idle =
      let (f, word, v) = Reach-Inv (fresh-Inv disk) r in
      ground (arith, Masks.and_state f v.fits, Masks.and_dirty f v.fits)

  -- In every interleaving, TryReserve claims a frame only when no thread pins, latches or writes
  -- back its page, and only when the page, if the frame holds one, is on disk as it is in memory.
  pub try_reserve-Reach :
      (popped : Bool) {w : ℕ} {wake : Bool}
      → transition (Op.try_reserve popped) (s.word) ≡ some (w, wake)
      → (s.ghost.pinners ≡ 0)
        × (s.ghost.loaders ≡ 0)
        × (s.ghost.readers ≡ 0)
        × (s.ghost.writers ≡ 0)
        × (s.ghost.queued_tasks ≡ 0)
        × (s.ghost.active_tasks ≡ 0)
        × (is_resident (s.word) ≡ true → s.ghost.page ≡ s.ghost.disk)
  unfolding is_resident
  try_reserve-Reach popped {w} {wake} e =
      let (f, word, v) = Reach-Inv (fresh-Inv disk) r in
      let met = transition-spec (Op.try_reserve popped) f v.fits tt in
      let (f', spec_e, _) =
        fields_after (Op.try_reserve popped) f w wake (spec (Op.try_reserve popped) f)
          (sym met ∙ ap (transition (Op.try_reserve popped)) (sym word) ∙ e) in
      let idle = claim_idle popped f s.ghost f' wake v spec_e in
      (
        idle.0,
        idle.1,
        idle.2,
        idle.3,
        idle.4,
        idle.5,
        λ resident. ground (arith, Masks.and_state f v.fits),
      )
