-- ===== src/Gapi/Guards.antt =====
-- What a guard has established when the call goes on after it.
pub mod Accounts
pub mod Sessions
pub mod Users
pub mod Login
pub mod SignUp
pub mod Transfers
pub use go_bank.Db.Guards.{or_else_passed, after_or_else}
use go_bank.Common.{
  ◌≡◌, refl, ap, sym, ◌∙◌, Bool, true, false, not, Option, none, some, List, [], ◌∷◌, ◌++◌, String,
  str_eq, eq_iff, arith,
}
use go_bank.Common.Int.{ℤ, pos}
use go_bank.Val.Validation.{Check, fine, bad, validate_id}
use go_bank.Token.Payload.{Payload}
use go_bank.Db.World.{World, Action, Result, ok, err, map_result, or_else, >>=-eq-ok, ◌>>=◌}
use go_bank.Gapi.Status.{Code, Status, Rpc, field_violation, reject, refuse_if}
use go_bank.Gapi.Server.{Context, caller, payload_or_fail}

module _ {A : Type 0} where
  pub after_reject :
      (vs : List String) (k : Unit {0} → Rpc A) (w w' : World) {a : A}
      → (reject vs >>= k) w ≡ (ok a, w')
      → (vs ≡ []) × (k tt w ≡ (ok a, w'))
  after_reject [] k w w' h = (refl, h)
  after_reject (v ∷ vs) k w w' h = cc

  pub after_refuse_if :
      (b : Bool) (c : Code) (k : Unit {0} → Rpc A) (w w' : World) {a : A}
      → (refuse_if b c >>= k) w ≡ (ok a, w')
      → (b ≡ false) × (k tt w ≡ (ok a, w'))
  after_refuse_if true c k w w' h = cc
  after_refuse_if false c k w w' h = (refl, h)

  after_payload :
      (o : Option Payload) (k : Payload → Rpc A) (w w' : World) {a : A}
      → (payload_or_fail o >>= k) w ≡ (ok a, w')
      → (p : Payload) × (o ≡ some p) × (k p w ≡ (ok a, w'))
  after_payload none k w w' h = cc
  after_payload (some p) k w w' h = (p, refl, h)

  pub after_caller :
      (ctx : Context) (k : Payload → Rpc A) (w w' : World) {a : A}
      → (caller ctx >>= k) w ≡ (ok a, w')
      → (p : Payload) × (ctx.auth_payload ≡ some p) × (k p w ≡ (ok a, w'))
  after_caller ctx = after_payload ctx.auth_payload

pub not_is_false : (b : Bool) → not b ≡ false → b ≡ true
not_is_false true h = refl
not_is_false false h = cc

pub same_text : (s t : String) → not (str_eq s t) ≡ false → s ≡ t
same_text s t h = (eq_iff s t).0 (not_is_false (str_eq s t) h)

pub no_violation : (field : String) (c : Check) → field_violation field c ≡ [] → c ≡ fine
no_violation field fine h = refl
no_violation field bad h = cc

-- A list of violations is empty only if each part is.
pub both_empty : (xs ys : List String) → xs ++ ys ≡ [] → (xs ≡ []) × (ys ≡ [])
both_empty [] ys h = (refl, h)
both_empty (x ∷ xs) ys h = cc
