-- ===== src/Logger/Grpc/Codes.antt =====
-- logger/grpc.go: the level of a finished call by its code (google.golang.org/grpc/codes).
use go_bank.Common.{Bool, true, false, Option, none, some, String, if◌then◌else◌}
use go_bank.Db.World.{Result}
use go_bank.Gapi.Status.{Code, Status, status, invalid_fields}
use go_bank.Logger.Entry.{Level, info, warn, error}

pub data GrpcCode : Type 0 where
  ok canceled unknown invalid_argument deadline_exceeded not_found already_exists : GrpcCode
  permission_denied resource_exhausted failed_precondition aborted out_of_range : GrpcCode
  unimplemented internal unavailable data_loss unauthenticated : GrpcCode

abbrev of_code : Code → GrpcCode
of_code Code.invalid_argument = GrpcCode.invalid_argument
of_code Code.not_found = GrpcCode.not_found
of_code Code.already_exists = GrpcCode.already_exists
of_code Code.permission_denied = GrpcCode.permission_denied
of_code Code.failed_precondition = GrpcCode.failed_precondition
of_code Code.internal = GrpcCode.internal
of_code Code.unauthenticated = GrpcCode.unauthenticated

abbrev pub error_of : {A : Type 0} → Result Status A → Option Status
error_of (Result.ok a) = none
error_of (Result.err e) = some e

-- `status.Code(err)`
abbrev pub status_code : Option Status → GrpcCode
status_code none = GrpcCode.ok
status_code (some (status c)) = of_code c
status_code (some (invalid_fields vs)) = GrpcCode.invalid_argument

-- `code.String()`
abbrev pub code_name : GrpcCode → String
code_name GrpcCode.ok = "OK"
code_name GrpcCode.canceled = "Canceled"
code_name GrpcCode.unknown = "Unknown"
code_name GrpcCode.invalid_argument = "InvalidArgument"
code_name GrpcCode.deadline_exceeded = "DeadlineExceeded"
code_name GrpcCode.not_found = "NotFound"
code_name GrpcCode.already_exists = "AlreadyExists"
code_name GrpcCode.permission_denied = "PermissionDenied"
code_name GrpcCode.resource_exhausted = "ResourceExhausted"
code_name GrpcCode.failed_precondition = "FailedPrecondition"
code_name GrpcCode.aborted = "Aborted"
code_name GrpcCode.out_of_range = "OutOfRange"
code_name GrpcCode.unimplemented = "Unimplemented"
code_name GrpcCode.internal = "Internal"
code_name GrpcCode.unavailable = "Unavailable"
code_name GrpcCode.data_loss = "DataLoss"
code_name GrpcCode.unauthenticated = "Unauthenticated"

abbrev pub is_client_error : GrpcCode → Bool
is_client_error GrpcCode.invalid_argument = true
is_client_error GrpcCode.not_found = true
is_client_error GrpcCode.already_exists = true
is_client_error GrpcCode.permission_denied = true
is_client_error GrpcCode.failed_precondition = true
is_client_error GrpcCode.unauthenticated = true
is_client_error GrpcCode.resource_exhausted = true
is_client_error GrpcCode.canceled = true
is_client_error _ = false

abbrev is_ok : GrpcCode → Bool
is_ok GrpcCode.ok = true
is_ok _ = false

unfoldable pub default_decider : String → Option Status → Level × Bool
default_decider full_method e =
    let c = status_code e in
    if is_ok c then (info, true) else if is_client_error c then (warn, true) else (error, true)
