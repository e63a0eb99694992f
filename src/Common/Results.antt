-- ===== src/Common/Results.antt =====
-- src/cpp/include/telepath/common/status.h: outcomes with a value, and the builders of errors.
use Prim.Native.String.{String}
use tele_path.Prelude.{ℕ, Bool, ◌==◌}
use tele_path.Common.Status.{ErrorCode, error_code, Error, Status, ok, error}

-- std::expected<T, Error>.
pub data Result {ℓ} (A : Type ℓ) : Type ℓ where
  value : A → Result A
  failure : Error → Result A

abbrev pub invalid_argument : String → Error
invalid_argument message = record {
  code = ErrorCode.invalid_argument;
  message = message;
  system_error = 0;
}

abbrev pub io_error : String → ℕ → Error
io_error message system_error = record {
  code = ErrorCode.io_error;
  message = message;
  system_error = system_error;
}

abbrev pub unavailable : String → Error
unavailable message = record { code = ErrorCode.unavailable; message = message; system_error = 0 }

abbrev pub resource_exhausted : String → Error
resource_exhausted message = record {
  code = ErrorCode.resource_exhausted;
  message = message;
  system_error = 0;
}

abbrev pub failed : String → Error
failed message = record { code = ErrorCode.failed; message = message; system_error = 0 }

-- `error.code() == ErrorCode::kResourceExhausted`.
abbrev pub is_resource_exhausted : Error → Bool
is_resource_exhausted e = error_code e.code == error_code ErrorCode.resource_exhausted

-- PropagateError into a Status, and a Status as the outcome of a call without a value.
abbrev pub to_status {ℓ} : {A : Type ℓ} → Result A → Status
to_status (value a) = ok
to_status (failure e) = error e

-- The first error, when both calls are made whatever the first gives.
abbrev pub or_else : Status → Status → Status
or_else ok second = second
or_else (error e) second = error e
