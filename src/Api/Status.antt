-- ===== src/Api/Status.antt =====
-- What a handler writes: the status of an error, whose text is left out, or a body with status 200.
-- Every path of a handler writes one answer and returns.
use go_bank.Common.{Bool, true, false, if◌then◌else◌}
use go_bank.Db.World.{Action, DbError, is_no_rows, pure, fail}

pub data HttpStatus : Type 0 where
  bad_request unauthorized forbidden not_found internal_server_error : HttpStatus

abbrev pub Handler : Type 0 → Type 0
Handler A = Action HttpStatus A

-- `if test { ctx.JSON(status, errorResponse(err)); return }`
abbrev pub abort_if : Bool → HttpStatus → Handler (Unit {0})
abort_if true s = fail s
abort_if false s = pure tt

-- A missing row is 404, any other error is 500.
abbrev pub not_found_or_500 : DbError → HttpStatus
not_found_or_500 e = if is_no_rows e then not_found else internal_server_error

abbrev pub any_500 {ℓ} : {E : Type ℓ} → E → HttpStatus
any_500 e = internal_server_error
