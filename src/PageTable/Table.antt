-- ===== src/PageTable/Table.antt =====
-- src/cpp/lib/buffer/page_table.h and page_table.cc, the data and the reads.
use tele_path.Prelude.{
  ℕ, zero, suc, ◌-◌, ◌*◌, ◌/◌, ◌%◌, ◌^◌, bit_and, bit_xor, Bool, Option, ◌==◌, ◌&&◌, if◌then◌else◌,
  ltb, max,
}
use tele_path.Common.Types.{BufferTag}
use tele_path.Common.Chains.{walk}

abbrev pub none_index : ℕ
none_index = 2 ^ 32 - 1

abbrev pub u64_mod : ℕ
u64_mod = 2 ^ 64

-- MixTag. FileId has 32 bits and BlockId 64, so the shift to the left drops bits.
unfoldable pub mix_tag : BufferTag → ℕ
mix_tag tag =
    let left : ℕ = tag.file_id * 2 ^ 40 % u64_mod in
    let v0 : ℕ = bit_xor (bit_xor tag.block_id left) (tag.file_id / 2 ^ 24) in
    let v1 : ℕ = bit_xor v0 (v0 / 2 ^ 30) in
    let v2 : ℕ = v1 * 0xbf58476d1ce4e5b9 % u64_mod in
    let v3 : ℕ = bit_xor v2 (v2 / 2 ^ 27) in
    let v4 : ℕ = v3 * 0x94d049bb133111eb % u64_mod in bit_xor v4 (v4 / 2 ^ 31)

-- std::bit_ceil: the least power of two that is not below `n`.
unfoldable pub bit_ceil_from : ℕ → ℕ → ℕ → ℕ
bit_ceil_from zero power n = power
bit_ceil_from (suc fuel) power n = bit_ceil_from fuel (if ltb power n then power * 2 else power) n

-- BucketCount. 64 doublings reach every std::size_t.
unfoldable pub bucket_count : ℕ → ℕ
unfolding bit_ceil_from
bucket_count frame_capacity = bit_ceil_from 64 1 (max frame_capacity 1)

pub record Table : Type 0 where
  pub frame_capacity : ℕ
  pub bucket_mask : ℕ
  pub stripe_count : ℕ
  pub heads : ℕ → ℕ
  pub next : ℕ → ℕ
  pub bucket_of : ℕ → ℕ
  pub key_file_id : ℕ → ℕ
  pub key_block_id : ℕ → ℕ

-- The constructor, and Place with `initialize`.
unfoldable pub empty_table : ℕ → ℕ → Table
unfolding bucket_count
empty_table frame_capacity stripe_count = record {
  frame_capacity = frame_capacity;
  bucket_mask = bucket_count frame_capacity - 1;
  stripe_count = max stripe_count 1;
  heads = λ bucket. none_index;
  next = λ frame. none_index;
  bucket_of = λ frame. none_index;
  key_file_id = λ frame. 0;
  key_block_id = λ frame. 0;
}

unfoldable pub bucket_for : Table → BufferTag → ℕ
bucket_for t tag = bit_and (mix_tag tag) t.bucket_mask

unfoldable pub stripe_for : Table → ℕ → ℕ
stripe_for t bucket = bucket % t.stripe_count

unfoldable pub maps_to : Table → ℕ → BufferTag → Bool
maps_to t frame tag = t.key_file_id frame == tag.file_id && t.key_block_id frame == tag.block_id

unfoldable pub lookup_frame_id : Table → BufferTag → Option ℕ
unfolding walk bucket_for maps_to
lookup_frame_id t tag =
    walk (λ frame. maps_to t frame tag) t.next t.frame_capacity (t.heads (bucket_for t tag))
