-- ===== src/Common/Types.antt =====
-- src/cpp/include/telepath/common/types.h.
use tele_path.Prelude.{ℕ, ◌-◌, ◌^◌, ◌≡◌, Bool, true, ◌==◌, ◌&&◌, ◌↔◌, arith}

abbrev pub invalid_frame_id : ℕ
invalid_frame_id = 2 ^ 32 - 1

abbrev pub invalid_lsn : ℕ
invalid_lsn = 0

pub record BufferTag : Type 0 where
  pub file_id : ℕ
  pub block_id : ℕ

-- The tag that a default constructor gives.
abbrev pub no_tag : BufferTag
no_tag = record { file_id = 0; block_id = 0 }

abbrev pub tag_eq : BufferTag → BufferTag → Bool
tag_eq a b = a.file_id == b.file_id && a.block_id == b.block_id

pub tag_eq_iff : (a b : BufferTag) → (tag_eq a b ≡ true) ↔ (a ≡ b)
tag_eq_iff a b = ground arith
