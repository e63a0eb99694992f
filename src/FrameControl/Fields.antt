-- ===== src/FrameControl/Fields.antt =====
-- The control word of src/cpp/lib/buffer/frame_control.h as the fields that it packs.
use tele_path.Prelude.{ℕ, ◌+◌, ◌*◌, ◌/◌, ◌%◌, ◌^◌, ◌<◌, ◌≡◌, arith}
use tele_path.FrameControl.Word.{word_mod}

-- A flag is 0 or 1.
pub record Fields : Type 0 where
  pub state : ℕ
  pub dirty : ℕ
  pub queued : ℕ
  pub active : ℕ
  pub prefetched : ℕ
  pub redirtied : ℕ
  pub exclusive : ℕ
  pub shared : ℕ
  pub waiters : ℕ
  pub pins : ℕ

pub record Fits (f : Fields) : Type 0 where
  pub state : f.state < 4
  pub dirty : f.dirty < 2
  pub queued : f.queued < 2
  pub active : f.active < 2
  pub prefetched : f.prefetched < 2
  pub redirtied : f.redirtied < 2
  pub exclusive : f.exclusive < 2
  pub shared : f.shared < 2 ^ 8
  pub waiters : f.waiters < 2
  pub pins : f.pins < 2 ^ 15

unfoldable pub pack : Fields → ℕ
pack f =
    f.state
    + f.dirty * 2 ^ 2
    + f.queued * 2 ^ 3
    + f.active * 2 ^ 4
    + f.prefetched * 2 ^ 5
    + f.redirtied * 2 ^ 6
    + f.exclusive * 2 ^ 7
    + f.shared * 2 ^ 8
    + f.waiters * 2 ^ 16
    + f.pins * 2 ^ 17

unfoldable pub view : ℕ → Fields
view w = record {
  state = w % 4;
  dirty = w / 2 ^ 2 % 2;
  queued = w / 2 ^ 3 % 2;
  active = w / 2 ^ 4 % 2;
  prefetched = w / 2 ^ 5 % 2;
  redirtied = w / 2 ^ 6 % 2;
  exclusive = w / 2 ^ 7 % 2;
  shared = w / 2 ^ 8 % 2 ^ 8;
  waiters = w / 2 ^ 16 % 2;
  pins = w / 2 ^ 17 % 2 ^ 15;
}

pub view-Fits : (w : ℕ) → Fits (view w)
unfolding view
view-Fits w = omega arith

pub pack-lt : (f : Fields) → Fits f → pack f < word_mod
unfolding pack
pack-lt f h = omega arith

-- A 32-bit word is the packing of the fields that the masks and shifts read from it.
pub pack-view : (w : ℕ) → w < word_mod → pack (view w) ≡ w
unfolding pack view
pack-view w h = omega arith
