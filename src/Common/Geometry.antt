-- ===== src/Common/Geometry.antt =====
-- src/cpp/include/telepath/common/block_geometry.h, and src/cpp/lib/buffer/frame_memory_pool.h.
use tele_path.Prelude.{
  ℕ, zero, suc, ◌+◌, ◌-◌, ◌*◌, ◌/◌, ◌%◌, ◌^◌, ◌≤◌, ◌<◌, ◌≡◌, ◌⊎◌, inl, inr, refl, Bool, true, false,
  not, ◌&&◌, ◌==◌, ltb, leb, if◌then◌else◌, arith, Bool-cases, ==_iff,
}
use native.Mathlib.Nat.{pow-suc, le_trans, mul-le-mul_right, div-mul-le_self, add-mul}
use tele_path.Common.Types.{invalid_frame_id}
use tele_path.Common.Status.{Status, ok, error}
use tele_path.Common.Results.{Result, value, failure, invalid_argument}

abbrev pub min_block_size : ℕ
min_block_size = 2 ^ 12

abbrev pub max_block_size : ℕ
max_block_size = 2 ^ 22

-- std::countr_zero on the `fuel` low bits.
unfoldable pub countr_zero : ℕ → ℕ → ℕ
countr_zero zero n = 0
countr_zero (suc fuel) n = if n % 2 == 0 then suc (countr_zero fuel (n / 2)) else 0

-- std::has_single_bit on the `fuel` low bits.
unfoldable pub has_single_bit : ℕ → ℕ → Bool
has_single_bit zero n = false
has_single_bit (suc fuel) n = if n % 2 == 0 then has_single_bit fuel (n / 2) else n == 1

-- A std::size_t has 64 bits.
unfoldable pub is_valid_block_size : ℕ → Bool
is_valid_block_size block_size =
    has_single_bit 64 block_size && leb min_block_size block_size && leb block_size max_block_size

pub record BlockGeometry : Type 0 where
  pub block_shift : ℕ

unfoldable pub create_geometry : ℕ → Result BlockGeometry
create_geometry block_size =
    if not (is_valid_block_size block_size)
    then failure (invalid_argument "block size must be a power of two between 4 KiB and 4 MiB")
    else value (record { block_shift = countr_zero 64 block_size })

unfoldable pub block_size : BlockGeometry → ℕ
block_size g = 2 ^ g.block_shift

unfoldable pub block_mask : BlockGeometry → ℕ
block_mask g = 2 ^ g.block_shift - 1

-- The shifts drop what does not fit in 64 bits.
unfoldable pub block_offset : BlockGeometry → ℕ → ℕ
block_offset g block_id = block_id * 2 ^ g.block_shift % 2 ^ 64

unfoldable pub frame_offset : BlockGeometry → ℕ → ℕ
frame_offset g frame_id = frame_id * 2 ^ g.block_shift % 2 ^ 64

unfoldable pub max_frame_count : BlockGeometry → ℕ
max_frame_count g = (2 ^ 64 - 1) / 2 ^ g.block_shift

-- FrameMemoryPool::Validate.
unfoldable pub validate_pool : ℕ → BlockGeometry → Status
unfolding max_frame_count
validate_pool pool_size g =
    if pool_size == 0
    then error (invalid_argument "frame memory pool size must be non-zero")
    else if leb invalid_frame_id pool_size
    then error (invalid_argument "frame memory pool size exceeds the frame id range")
    else if ltb (max_frame_count g) pool_size
    then error (invalid_argument "frame memory pool size overflows the address space")
    else ok

single_bit_power : (fuel n : ℕ) → has_single_bit fuel n ≡ true → 2 ^ countr_zero fuel n ≡ n
unfolding has_single_bit countr_zero
single_bit_power zero n h = cc
single_bit_power (suc fuel) n h = elim (Bool-cases (n % 2 == 0)) [
  | inl even ↦
      let half : has_single_bit fuel (n / 2) ≡ true = rw even at h in
      let shift = countr_zero fuel (n / 2) in
      let power = single_bit_power fuel (n / 2) half in
      rw even (omega (arith, pow-suc 2 shift, power, (==_iff (n % 2) 0).0 even))
  | inr odd ↦ let one : (n == 1) ≡ true = rw odd at h in rw odd (omega (arith, (==_iff n 1).0 one))
]

valid_parts :
    (size : ℕ)
    → is_valid_block_size size ≡ true
    → (has_single_bit 64 size ≡ true) × (min_block_size ≤ size) × (size ≤ max_block_size)
unfolding is_valid_block_size
valid_parts size h = ground arith

-- Create returns a geometry for a size that IsValidBlockSize accepts, which is then from 4 KiB to 4 MiB,
-- and block_size, a power of two, gives the size back, and block_mask its low bits; it refuses every
-- other size.
pub create_geometry-block_size :
    (size : ℕ)
    → ((is_valid_block_size size ≡ true)
        × ((g : BlockGeometry) × (create_geometry size ≡ value g)
            × (block_size g ≡ size)
            × (block_mask g + 1 ≡ size)
            × (min_block_size ≤ size)
            × (size ≤ max_block_size)))
      ⊎ ((is_valid_block_size size ≡ false)
          × (create_geometry size
              ≡ failure
                  (invalid_argument "block size must be a power of two between 4 KiB and 4 MiB")))
unfolding create_geometry block_size block_mask
create_geometry-block_size size = elim (Bool-cases (is_valid_block_size size)) [
  | inr invalid ↦ inr (invalid, rw invalid refl)
  | inl valid ↦
      let (bit, low, high) = valid_parts size valid in
      let power = single_bit_power 64 size bit in
      inl (
        valid,
        (
          record { block_shift = countr_zero 64 size },
          rw valid refl,
          power,
          omega arith,
          low,
          high,
        ),
      )
]

-- In a pool that Validate accepts, the frames lie one behind the other in less than 2 ^ 64 bytes: no
-- frame's offset wraps around, and each ends where the next one begins or before.
pub validate_pool-frame_offset :
    (pool_size : ℕ) (g : BlockGeometry) (f f' : ℕ)
    → validate_pool pool_size g ≡ ok
    → f < pool_size
    → (frame_offset g f ≡ f * block_size g)
      × (frame_offset g f + block_size g < 2 ^ 64)
      × (pool_size < invalid_frame_id)
      × (f' < f → frame_offset g f' + block_size g ≤ frame_offset g f)
unfolding validate_pool max_frame_count frame_offset block_size
validate_pool-frame_offset pool_size g f f' e low =
    let size = 2 ^ g.block_shift in
    let fits : pool_size ≤ (2 ^ 64 - 1) / size = ground arith in
    let small : pool_size < invalid_frame_id = ground arith in
    let whole : pool_size * size ≤ 2 ^ 64 - 1 =
      le_trans (mul-le-mul_right size fits) (div-mul-le_self (2 ^ 64 - 1) size) in
    let behind : (f + 1) * size ≤ pool_size * size = mul-le-mul_right size (omega arith) in
    let last : f * size + size < 2 ^ 64 = omega (arith, add-mul f 1 size) in
    let here : f * size % 2 ^ 64 ≡ f * size = omega arith in
    (
      here,
      omega arith,
      small,
      λ before.
          let order : (f' + 1) * size ≤ f * size = mul-le-mul_right size (omega arith) in
          omega (arith, add-mul f' 1 size),
    )
