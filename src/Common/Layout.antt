-- ===== src/Common/Layout.antt =====
-- src/cpp/lib/common/state_layout.h: arrays one after another in one block.
use tele_path.Prelude.{
  ℕ, ◌+◌, ◌-◌, ◌*◌, ◌/◌, ◌%◌, ◌^◌, ◌≤◌, ◌<◌, ◌≡◌, refl, bit_and, List, [], ◌∷◌, ◌==◌, if◌then◌else◌,
  arith,
}
use tele_path.Prelude.Bits.{and-complement, and_low}
use native.Mathlib.Nat.{mod-add-div, mul-mod_right, mod-lt, one-le-pow}

abbrev pub size_mod : ℕ
size_mod = 2 ^ 64

-- `(value + alignment - 1) & ~(alignment - 1)` on std::size_t.
unfoldable pub align : ℕ → ℕ → ℕ
align value alignment =
    bit_and ((value + alignment + size_mod - 1) % size_mod) (size_mod - 1 - (alignment - 1))

-- An array: its bytes, `count * sizeof(T)`, and the exponent of its alignment, a power of two.
pub record Request : Type 0 where
  pub bytes : ℕ
  pub log_alignment : ℕ

pub record Region : Type 0 where
  pub offset : ℕ
  pub bytes : ℕ

-- Add: the offset of the array, and the size afterwards.
unfoldable pub add : ℕ → Request → Region × ℕ
unfolding align
add size r =
    let offset = align size (2 ^ r.log_alignment) in
    (record { offset = offset; bytes = r.bytes }, (offset + r.bytes) % size_mod)

unfoldable pub size_of : ℕ → ℕ
unfolding align
size_of size = align (if size == 0 then 1 else size) 64

-- The regions of a sequence of calls of Add.
unfoldable pub add_all : ℕ → List Request → List Region × ℕ
unfolding add
add_all size [] = ([], size)
add_all size (r ∷ rs) =
    let (region, after) = add size r in
    let (regions, end) = add_all after rs in (region ∷ regions, end)

align_lem :
    (value k : ℕ)
    → k < 64
    → value + 2 ^ k < size_mod
    → (align value (2 ^ k) % 2 ^ k ≡ 0)
      × (value ≤ align value (2 ^ k))
      × (align value (2 ^ k) < value + 2 ^ k)
unfolding align
align_lem value k lt room =
    let p = 2 ^ k in
    let pos : 0 < p = one-le-pow k 2 (omega arith) in
    let x = value + p - 1 in
    let wrapped : (value + p + size_mod - 1) % size_mod ≡ x = omega arith in
    let low : bit_and x (p - 1) ≡ x % p = and_low k x in
    let split = and-complement 64 x (p - 1) (omega arith) (omega arith) in
    let parts = mod-add-div x p in
    let a : bit_and x (size_mod - 1 - (p - 1)) ≡ p * (x / p) = omega arith in
    let below = mod-lt x pos in rw (wrapped, a) (mul-mod_right p (x / p), omega arith, omega arith)

-- Each region begins at a multiple of its alignment, at or after the end of the one before, and the
-- last ends at the size.
abbrev pub ArePlaced : ℕ → List Request → List Region → ℕ → Type 0
ArePlaced start [] [] end = start ≡ end
ArePlaced start [] (g ∷ gs) end = ⊥
ArePlaced start (r ∷ rs) [] end = ⊥
ArePlaced start (r ∷ rs) (g ∷ gs) end =
    (g.bytes ≡ r.bytes)
    × (g.offset % 2 ^ r.log_alignment ≡ 0)
    × (start ≤ g.offset)
    × ArePlaced (g.offset + g.bytes) rs gs end

-- What the requests ask for at most, and that their alignments are powers of two of std::size_t.
abbrev pub demand : List Request → ℕ
demand [] = 0
demand (r ∷ rs) = 2 ^ r.log_alignment + r.bytes + demand rs

abbrev pub AreAligned : List Request → Type 0
AreAligned [] = Unit {0}
AreAligned (r ∷ rs) = (r.log_alignment < 64) × AreAligned rs

-- Any sequence of calls of Add whose demand does not overflow places its arrays apart from each other,
-- in their order and at their alignments.
pub add_all-ArePlaced :
    (size : ℕ) (rs : List Request)
    → AreAligned rs
    → size + demand rs < size_mod
    → let (regions, end) = add_all size rs in ArePlaced size rs regions end
unfolding add_all add
add_all-ArePlaced size [] a room = refl
add_all-ArePlaced size (r ∷ rs) a room =
    let (aligned, after, before) = align_lem size r.log_alignment a.0 (omega arith) in
    let offset = align size (2 ^ r.log_alignment) in
    let whole : (offset + r.bytes) % size_mod ≡ offset + r.bytes = omega arith in
    (refl, aligned, after, rw whole (add_all-ArePlaced (offset + r.bytes) rs a.1 (omega arith)))
