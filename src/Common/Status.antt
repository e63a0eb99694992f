-- ===== src/Common/Status.antt =====
-- src/cpp/include/telepath/common/status.h: errors, and the outcome of a call without a value.
use Prim.Native.String.{String}
use tele_path.Prelude.{ℕ}

pub data ErrorCode : Type 0 where
  invalid_argument not_found io_error unavailable resource_exhausted internal failed : ErrorCode

abbrev pub error_code : ErrorCode → ℕ
error_code ErrorCode.invalid_argument = 1
error_code ErrorCode.not_found = 2
error_code ErrorCode.io_error = 3
error_code ErrorCode.unavailable = 4
error_code ErrorCode.resource_exhausted = 5
error_code ErrorCode.internal = 6
error_code ErrorCode.failed = 7

pub data ErrorClass : Type 0 where
  page resource usage fatal : ErrorClass

-- `system_error` is an errno, which the model takes to be no less than zero.
pub record Error : Type 0 where
  pub code : ErrorCode
  pub message : String
  pub system_error : ℕ

unfoldable pub error_class : Error → ErrorClass
error_class e = elim (e.code) [
  | ErrorCode.io_error ↦ ErrorClass.page
  | ErrorCode.resource_exhausted ↦ ErrorClass.resource
  | ErrorCode.invalid_argument ↦ ErrorClass.usage
  | ErrorCode.not_found ↦ ErrorClass.usage
  | ErrorCode.unavailable ↦ ErrorClass.usage
  | ErrorCode.internal ↦ ErrorClass.fatal
  | ErrorCode.failed ↦ ErrorClass.fatal
]

-- std::expected<void, Error>.
pub data Status : Type 0 where
  ok : Status
  error : Error → Status

abbrev pub invalid_argument_error : String → Status
invalid_argument_error message =
    error (record { code = ErrorCode.invalid_argument; message = message; system_error = 0 })

abbrev pub unavailable_error : String → ℕ → Status
unavailable_error message system_error =
    error (record { code = ErrorCode.unavailable; message = message; system_error = system_error })
