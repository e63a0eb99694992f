-- ===== src/FrameControl/Errors.antt =====
-- src/cpp/lib/buffer/frame_control.cc, the word that keeps the error of a writeback, and LowerRecLsn of
-- frame_control.h, as what one iteration of its loop decides.
use tele_path.Prelude.{
  ℕ, ◌+◌, ◌*◌, ◌/◌, ◌^◌, ◌<◌, ◌≡◌, ◌↔◌, ◌⊎◌, ◌≢◌, ◌≤◌, false, ◌||◌, ◌==◌, bit_and, bit_or, min,
  Option, none, some, ltb, if◌then◌else◌, arith, refl,
}
use tele_path.Prelude.Bits.{or-and_add, and_comm, shift-and, and-ones}
use tele_path.Common.Types.{invalid_lsn}
use tele_path.Common.Status.{ErrorCode, error_code, Status, ok, error}

unfoldable pub pack_writeback_error : Status → ℕ
pack_writeback_error ok = 0
pack_writeback_error (error e) =
    let code = bit_and (error_code e.code) 0xff in
    let system_error = min e.system_error 0xffffff in bit_or code (system_error * 2 ^ 8)

-- `static_cast<ErrorCode>`; a number that is no code gives `none`.
abbrev pub to_error_code : ℕ → Option ErrorCode
to_error_code code =
    if code == 1
    then some ErrorCode.invalid_argument
    else if code == 2
    then some ErrorCode.not_found
    else if code == 3
    then some ErrorCode.io_error
    else if code == 4
    then some ErrorCode.unavailable
    else if code == 5
    then some ErrorCode.resource_exhausted
    else if code == 6
    then some ErrorCode.internal
    else if code == 7
    then some ErrorCode.failed
    else none

unfoldable pub unpack_writeback_error : ℕ → Option Status
unpack_writeback_error packed =
    if packed == 0 then some ok else elim (to_error_code (bit_and packed 0xff)) [
      | none ↦ none
      | some code ↦ some (
          error
            (record { code = code; message = "writeback failed"; system_error = packed / 2 ^ 8 }))
    ]

-- What a reader of the packed error gets.
abbrev pub as_writeback_error : Status → Status
as_writeback_error ok = ok
as_writeback_error (error e) = error (record {
  code = e.code;
  message = "writeback failed";
  system_error = min e.system_error 0xffffff;
})

pack_sum :
    (code system_error : ℕ)
    → code < 2 ^ 8
    → bit_or code (system_error * 2 ^ 8) ≡ code + system_error * 2 ^ 8
pack_sum code system_error small = omega (
  arith,
  or-and_add code (system_error * 2 ^ 8),
  and_comm code (system_error * 2 ^ 8),
  shift-and 8 system_error code small,
)

unpack_sum :
    (code system_error : ℕ) (c : ErrorCode)
    → 0 < code
    → code < 2 ^ 8
    → to_error_code code ≡ some c
    → unpack_writeback_error (code + system_error * 2 ^ 8)
      ≡ some
          (error (record { code = c; message = "writeback failed"; system_error = system_error }))
unfolding unpack_writeback_error
unpack_sum code system_error c pos small e =
    let packed = code + system_error * 2 ^ 8 in
    let some_error : (packed == 0) ≡ false = ground arith in
    let low : bit_and packed 0xff ≡ code = omega (arith, and-ones 8 0 packed) in
    let high : packed / 2 ^ 8 ≡ system_error = omega arith in rw (some_error, low, e, high) refl

code_range :
    (c : ErrorCode)
    → (bit_and (error_code c) 0xff ≡ error_code c)
      × (0 < error_code c)
      × (error_code c < 2 ^ 8)
      × (to_error_code (error_code c) ≡ some c)
code_range ErrorCode.invalid_argument = (refl, omega arith, omega arith, refl)
code_range ErrorCode.not_found = (refl, omega arith, omega arith, refl)
code_range ErrorCode.io_error = (refl, omega arith, omega arith, refl)
code_range ErrorCode.unavailable = (refl, omega arith, omega arith, refl)
code_range ErrorCode.resource_exhausted = (refl, omega arith, omega arith, refl)
code_range ErrorCode.internal = (refl, omega arith, omega arith, refl)
code_range ErrorCode.failed = (refl, omega arith, omega arith, refl)

unpack_zero : unpack_writeback_error 0 ≡ some ok
unfolding unpack_writeback_error
unpack_zero = refl

-- A packed writeback error fits 32 bits, is zero only for success, and unpacks to the same code and,
-- up to 24 bits, the same system error.
pub unpack-pack :
    (s : Status)
    → (unpack_writeback_error (pack_writeback_error s) ≡ some (as_writeback_error s))
      × (pack_writeback_error s < 2 ^ 32)
      × ((pack_writeback_error s ≡ 0) ↔ (s ≡ ok))
unfolding pack_writeback_error
unpack-pack ok = (unpack_zero, omega arith, (λ e. refl, λ e. refl))
unpack-pack (error e) =
    let (low, pos, small, back) = code_range (e.code) in
    let system_error = min e.system_error 0xffffff in
    let sum = pack_sum (error_code e.code) system_error small in
    rw (low, sum)
      (
        unpack_sum (error_code e.code) system_error (e.code) pos small back,
        omega arith,
        (λ z. absurd (omega arith), λ z. absurd (ground arith)),
      )

-- The value that LowerRecLsn stores over `current`, or none when it stores nothing.
unfoldable pub lower_rec_lsn : ℕ → ℕ → Option ℕ
lower_rec_lsn lsn current =
    if lsn == invalid_lsn
    then none
    else if current == invalid_lsn || ltb lsn current
    then some lsn
    else none

-- The LSN that is kept afterwards.
unfoldable pub lowered : ℕ → ℕ → ℕ
unfolding lower_rec_lsn
lowered lsn current = elim (lower_rec_lsn lsn current) [ none ↦ current | some next ↦ next ]

-- Lowering keeps the earliest valid LSN: in any order of two lowerings the same one is left, a valid
-- one is never later than what was lowered to or than what was there, and it is one of the two.
pub lowered_lem :
    (a b current : ℕ)
    → (lowered a (lowered b current) ≡ lowered b (lowered a current))
      × ((lowered a current ≡ a) ⊎ (lowered a current ≡ current))
      × (a ≢ invalid_lsn → (lowered a current ≢ invalid_lsn) × (lowered a current ≤ a))
      × (current ≢ invalid_lsn → (lowered a current ≢ invalid_lsn) × (lowered a current ≤ current))
unfolding lowered lower_rec_lsn
lowered_lem a b current = ground arith
