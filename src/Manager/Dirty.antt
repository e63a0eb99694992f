-- ===== src/Manager/Dirty.antt =====
-- `dirty_page_count` of src/cpp/include/telepath/buffer/buffer_manager.h is the number of dirty frames.
use tele_path.Prelude.{
  ℕ, zero, suc, ◌+◌, ◌-◌, ◌%◌, ◌^◌, ◌≤◌, ◌<◌, ◌≡◌, refl, ap, Bool, if◌then◌else◌, store, arith,
  ℕ_discrete,
}
use tele_path.FrameControl.Fields.{view-Fits}
use tele_path.Manager.Types.{Descriptor}
use tele_path.Manager.DirtyWords.{IsTidy, dirt}

unfoldable pub dirty_frames : ℕ → (ℕ → Descriptor) → ℕ
dirty_frames zero descriptors = 0
dirty_frames (suc n) descriptors = dirty_frames n descriptors + dirt ((descriptors n).control)

dirt-le : (w : ℕ) → dirt w ≤ 1
dirt-le w = let bits = view-Fits w in omega (arith, bits.dirty)

dirty_frames-store_ne :
    (n f : ℕ) (descriptors : ℕ → Descriptor) (d : Descriptor)
    → n ≤ f
    → dirty_frames n (store descriptors f d) ≡ dirty_frames n descriptors
unfolding dirty_frames
dirty_frames-store_ne zero f descriptors d h = refl
dirty_frames-store_ne (suc n) f descriptors d h =
    let other : store descriptors f d n ≡ descriptors n = ground arith in
    rw other (omega (arith, dirty_frames-store_ne n f descriptors d (omega arith)))

dirty_frames-store :
    (n f : ℕ) (descriptors : ℕ → Descriptor) (d : Descriptor)
    → f < n
    → dirty_frames n (store descriptors f d) + dirt ((descriptors f).control)
      ≡ dirty_frames n descriptors + dirt d.control
unfolding dirty_frames
dirty_frames-store zero f descriptors d h = absurd (omega arith)
dirty_frames-store (suc n) f descriptors d h = elim (ℕ_discrete n f) [
  | yes same ↦
      let here : store descriptors f d n ≡ d = ground arith in
      let below = dirty_frames-store_ne n f descriptors d (omega arith) in
      let bit = ap (λ (g : ℕ). dirt ((descriptors g).control)) same in
      rw here (omega (arith, below, bit))
  | no other ↦
      let kept : store descriptors f d n ≡ descriptors n = ground arith in
      rw kept (omega (arith, dirty_frames-store n f descriptors d (omega arith)))
]

dirty_frames-le : (n : ℕ) (descriptors : ℕ → Descriptor) → dirty_frames n descriptors ≤ n
unfolding dirty_frames
dirty_frames-le zero descriptors = omega arith
dirty_frames-le (suc n) descriptors =
    omega (arith, dirty_frames-le n descriptors, dirt-le ((descriptors n).control))

-- The words of the pool are 32-bit words that are dirty only while resident, and the count is that
-- of the dirty ones.
pub record AreCounted (n : ℕ) (descriptors : ℕ → Descriptor) (count : ℕ) : Type 0 where
  pub tidy : (f : ℕ) → f < n → IsTidy ((descriptors f).control)
  pub counted : count ≡ dirty_frames n descriptors

module _ (n f : ℕ) (descriptors : ℕ → Descriptor) (d : Descriptor) (count : ℕ)
    (c : AreCounted n descriptors count) (low : f < n) (tidy : IsTidy d.control) where
  IsTidy-store : (g : ℕ) → g < n → IsTidy ((store descriptors f d g).control)
  IsTidy-store g h = elim (ℕ_discrete g f) [
    | yes same ↦ let here : store descriptors f d g ≡ d = ground arith in rw here tidy
    | no other ↦
        let kept : store descriptors f d g ≡ descriptors g = ground arith in rw kept (c.tidy g h)
  ]

  -- A frame that keeps its dirty bit leaves the count right.
  pub keep-AreCounted :
      dirt d.control ≡ dirt ((descriptors f).control) → AreCounted n (store descriptors f d) count
  keep-AreCounted same = record {
    tidy = IsTidy-store;
    counted = omega (arith, dirty_frames-store n f descriptors d low, c.counted);
  }

  -- One more where the frame becomes dirty.
  pub more-AreCounted :
      (became : Bool)
      → n < 2 ^ 32
      → dirt d.control ≡ dirt ((descriptors f).control) + (if became then 1 else 0)
      → AreCounted n (store descriptors f d) (if became then (count + 1) % 2 ^ 64 else count)
  more-AreCounted became small bit = record {
    tidy = IsTidy-store;
    counted =
        let all = c.counted in
        let moved = dirty_frames-store n f descriptors d low in
        let bound = dirty_frames-le n descriptors in ground arith;
  }

  -- One less where it becomes clean.
  pub less-AreCounted :
      (cleared : Bool)
      → n < 2 ^ 32
      → dirt d.control + (if cleared then 1 else 0) ≡ dirt ((descriptors f).control)
      → AreCounted n
          (store descriptors f d)
          (if cleared then (count + (2 ^ 64 - 1)) % 2 ^ 64 else count)
  less-AreCounted cleared small bit = record {
    tidy = IsTidy-store;
    counted =
        let all = c.counted in
        let moved = dirty_frames-store n f descriptors d low in
        let bound = dirty_frames-le n descriptors in ground arith;
  }
