-- ===== src/Gapi/Status.antt =====
-- gapi/error.go and the gRPC status errors. A status keeps its code; an InvalidArgument that carries
-- field violations keeps their fields, in order; texts of messages are left out.
use go_bank.Common.{Bool, List, [], ◌∷◌, String}
use go_bank.Val.Validation.{Check, fine, bad}
use go_bank.Db.World.{Action, pure, fail}

pub data Code : Type 0 where
  invalid_argument not_found already_exists permission_denied failed_precondition : Code
  internal unauthenticated : Code

pub data Status : Type 0 where
  status : Code → Status
  invalid_fields : List String → Status

abbrev pub Rpc : Type 0 → Type 0
Rpc A = Action Status A

-- `if err := …; err != nil { violations = append(violations, fieldViolation(field, err)) }`
abbrev pub field_violation : String → Check → List String
field_violation field fine = []
field_violation field bad = field ∷ []

-- `if violations := …; violations != nil { return nil, invalidArgumentError(violations) }`
abbrev pub reject : List String → Rpc (Unit {0})
reject [] = pure tt
reject (v ∷ vs) = fail (invalid_fields (v ∷ vs))

-- `if test { return nil, status.Errorf(code, …) }`
abbrev pub refuse_if : Bool → Code → Rpc (Unit {0})
refuse_if Bool.true c = fail (status c)
refuse_if Bool.false c = pure tt
