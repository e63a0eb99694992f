-- ===== src/FrameControl/Word.antt =====
-- src/cpp/lib/buffer/frame_control.h, the layout of the control word and the functions that read
-- it. A word is a number below 2 ^ 32; `&`, `|` and `~` are the native operations on such numbers.
use tele_path.Prelude.{ℕ, ◌+◌, ◌-◌, ◌*◌, ◌/◌, ◌%◌, ◌^◌, bit_and, bit_or, Bool, not, ◌==◌}

-- BufferFrameState of buffer_descriptor.h, with the values of its enumerators.
pub data BufferFrameState : Type 0 where
  free loading resident : BufferFrameState

abbrev pub state_code : BufferFrameState → ℕ
state_code free = 0
state_code loading = 1
state_code resident = 2

abbrev pub word_mod : ℕ
word_mod = 2 ^ 32

abbrev pub state_mask : ℕ
state_mask = 0x3

abbrev pub dirty : ℕ
dirty = 2 ^ 2

abbrev pub writeback_queued : ℕ
writeback_queued = 2 ^ 3

abbrev pub writeback_active : ℕ
writeback_active = 2 ^ 4

abbrev pub prefetched : ℕ
prefetched = 2 ^ 5

abbrev pub redirtied : ℕ
redirtied = 2 ^ 6

abbrev pub exclusive : ℕ
exclusive = 2 ^ 7

abbrev pub shared_shift : ℕ
shared_shift = 8

abbrev pub shared_one : ℕ
shared_one = 2 ^ shared_shift

abbrev pub shared_mask : ℕ
shared_mask = 0xff * 2 ^ shared_shift

abbrev pub max_shared : ℕ
max_shared = 0xff

abbrev pub waiters : ℕ
waiters = 2 ^ 16

abbrev pub pin_shift : ℕ
pin_shift = 17

abbrev pub pin_one : ℕ
pin_one = 2 ^ pin_shift

abbrev pub pin_mask : ℕ
pin_mask = 0x7fff * 2 ^ pin_shift

abbrev pub max_pins : ℕ
max_pins = 0x7fff

abbrev pub writeback_mask : ℕ
writeback_mask = bit_or writeback_queued writeback_active

abbrev pub latch_mask : ℕ
latch_mask = bit_or exclusive shared_mask

-- `~mask` in 32 bits.
abbrev pub complement : ℕ → ℕ
complement mask = word_mod - 1 - mask

-- `a + b` and `a - b` of uint32_t.
abbrev pub add32 : ℕ → ℕ → ℕ
add32 a b = (a + b) % word_mod

abbrev pub sub32 : ℕ → ℕ → ℕ
sub32 a b = (a + word_mod - b) % word_mod

-- `(word & mask) != 0`.
abbrev pub has_any : ℕ → ℕ → Bool
has_any word mask = not (bit_and word mask == 0)

unfoldable pub state : ℕ → ℕ
state word = bit_and word state_mask

unfoldable pub with_state : ℕ → BufferFrameState → ℕ
with_state word s = bit_or (bit_and word (complement state_mask)) (state_code s)

unfoldable pub pins : ℕ → ℕ
pins word = bit_and word pin_mask / 2 ^ pin_shift

unfoldable pub shared_holders : ℕ → ℕ
shared_holders word = bit_and word shared_mask / 2 ^ shared_shift

unfoldable pub is_resident : ℕ → Bool
unfolding state
is_resident word = state word == state_code resident

unfoldable pub is_dirty : ℕ → Bool
is_dirty word = has_any word dirty

unfoldable pub has_writeback : ℕ → Bool
has_writeback word = has_any word writeback_mask
