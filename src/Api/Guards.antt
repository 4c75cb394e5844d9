-- ===== src/Api/Guards.antt =====
-- What a guard of a handler has established when the handler goes on after it.
use go_bank.Common.{◌≡◌, refl, Bool, true, false, Option, none, some}
use go_bank.Token.Payload.{Payload}
use go_bank.Db.World.{World, ok, ◌>>=◌}
use go_bank.Api.Status.{HttpStatus, Handler, abort_if}
use go_bank.Api.Binding.{bind_if, should_bind}
use go_bank.Api.Server.{GinContext, must_get, payload_or_panic}

module _ {A : Type 0} where
  after_bind_if :
      {R : Type 0} (req : R) (b : Bool) (k : R → Handler A) (w w' : World) {a : A}
      → (bind_if req b >>= k) w ≡ (ok a, w')
      → (b ≡ true) × (k req w ≡ (ok a, w'))
  after_bind_if req true k w w' h = (refl, h)
  after_bind_if req false k w w' h = cc

  pub after_bind :
      {R : Type 0} (req : R) (test : R → Bool) (k : R → Handler A) (w w' : World) {a : A}
      → (should_bind (some req) test >>= k) w ≡ (ok a, w')
      → (test req ≡ true) × (k req w ≡ (ok a, w'))
  after_bind req test = after_bind_if req (test req)

  pub after_abort_if :
      (b : Bool) (s : HttpStatus) (k : Unit {0} → Handler A) (w w' : World) {a : A}
      → (abort_if b s >>= k) w ≡ (ok a, w')
      → (b ≡ false) × (k tt w ≡ (ok a, w'))
  after_abort_if true s k w w' h = cc
  after_abort_if false s k w w' h = (refl, h)

  after_payload :
      (o : Option Payload) (k : Payload → Handler A) (w w' : World) {a : A}
      → (payload_or_panic o >>= k) w ≡ (ok a, w')
      → (p : Payload) × (o ≡ some p) × (k p w ≡ (ok a, w'))
  after_payload none k w w' h = cc
  after_payload (some p) k w w' h = (p, refl, h)

  pub after_must_get :
      (ctx : GinContext) (k : Payload → Handler A) (w w' : World) {a : A}
      → (must_get ctx >>= k) w ≡ (ok a, w')
      → (p : Payload) × (ctx.payload ≡ some p) × (k p w ≡ (ok a, w'))
  after_must_get ctx = after_payload ctx.payload
