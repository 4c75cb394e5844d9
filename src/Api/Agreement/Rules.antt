-- ===== src/Api/Agreement/Rules.antt =====
-- The steps that the handlers of api and the RPCs of gapi share.
use go_bank.Common.{◌≡◌, refl, Bool, true, false, Option, none, some, List, [], ◌∷◌, String, arith}
use go_bank.Token.Payload.{Payload}
use go_bank.Db.World.{◌>>=◌, Action, DbError, Result, ok, err, now, or_else, map_result}
use go_bank.Gapi.Status.{
  Code, Status, Rpc, status, invalid_fields, invalid_argument, already_exists, permission_denied,
  failed_precondition, internal, unauthenticated, reject, refuse_if,
}
use go_bank.Gapi.Server as Grpc
use go_bank.Gapi.Accounts.{not_found_or_internal}
use go_bank.Api.Status.{
  HttpStatus, Handler, bad_request, forbidden, internal_server_error, abort_if, not_found_or_500,
}
use go_bank.Api.Binding.{should_bind, bind_if}
use go_bank.Api.Server.{GinContext, must_get, payload_or_panic}
use go_bank.Api.Agreement.{Agree, IsSame, Related, pure-Agree}

-- The status that the REST server answers with where the RPC answers with a code. For a caller that is
-- not known, and for what the caller does not own, the handlers differ.
abbrev pub http_code : (unknown denied : HttpStatus) → Code → HttpStatus
http_code unknown denied invalid_argument = bad_request
http_code unknown denied Code.not_found = HttpStatus.not_found
http_code unknown denied already_exists = forbidden
http_code unknown denied permission_denied = denied
http_code unknown denied failed_precondition = bad_request
http_code unknown denied internal = internal_server_error
http_code unknown denied unauthenticated = unknown

abbrev pub translate : (unknown denied : HttpStatus) → Status → HttpStatus
translate unknown denied (status c) = http_code unknown denied c
translate unknown denied (invalid_fields fields) = bad_request

-- Behind the middleware a caller is known; if none were, the handlers would panic.
abbrev pub http_status : (denied : HttpStatus) → Status → HttpStatus
http_status denied = translate internal_server_error denied

abbrev pub is_empty : List String → Bool
is_empty [] = true
is_empty (v ∷ vs) = false

module _ {unknown denied : HttpStatus} where
  -- A request that both let through, or neither.
  pub bind_on-Agree :
      {R A B : Type 0} {S : A → B → Type 0} {k : R → Handler A} (l : R → Unit {0} → Rpc B)
      (test : R → Bool) (vs : R → List String) (P : R → Type 0)
      → ((req : R) → P req → test req ≡ is_empty (vs req))
      → ((req : R) → Agree S (translate unknown denied) (k req) (l req tt))
      → (req : R) → P req
      → Agree S
          (translate unknown denied)
          (should_bind (some req) test >>= k)
          (reject (vs req) >>= l req)
  bind_on-Agree {S} {k} l test vs P agree next req holds = go (test req) (vs req) (agree req holds)
    where
      go :
          (b : Bool) (xs : List String)
          → b ≡ is_empty xs
          → Agree S (translate unknown denied) (bind_if req b >>= k) (reject xs >>= l req)
      go b [] h = rw h (next req)
      go b (v ∷ vs) h = rw h (record { answers = λ w. refl; worlds = λ w. refl })

  pub bind-Agree :
      {R A B : Type 0} {S : A → B → Type 0} {k : R → Handler A} (l : R → Unit {0} → Rpc B)
      (test : R → Bool) (vs : R → List String)
      → ((req : R) → test req ≡ is_empty (vs req))
      → ((req : R) → Agree S (translate unknown denied) (k req) (l req tt))
      → (req : R)
      → Agree S
          (translate unknown denied)
          (should_bind (some req) test >>= k)
          (reject (vs req) >>= l req)
  bind-Agree l test vs agree next req =
      bind_on-Agree l test vs (λ _. Unit {0}) (λ r _. agree r) next req tt

  -- A request that api lets through.
  pub bound-Agree :
      {R A B : Type 0} {S : A → B → Type 0} (k : R → Handler A) (n : Rpc B) (test : R → Bool)
      (req : R)
      → test req ≡ true
      → Agree S (translate unknown denied) (k req) n
      → Agree S (translate unknown denied) (should_bind (some req) test >>= k) n
  bound-Agree k n test req h next = rw h next

  pub abort_if-Agree :
      {A B : Type 0} {S : A → B → Type 0} (k : Unit {0} → Handler A) (l : Unit {0} → Rpc B)
      (b : Bool) (s : HttpStatus) (c : Code)
      → s ≡ http_code unknown denied c
      → Agree S (translate unknown denied) (k tt) (l tt)
      → Agree S (translate unknown denied) (abort_if b s >>= k) (refuse_if b c >>= l)
  abort_if-Agree k l true s c h next = record { answers = λ w. h; worlds = λ w. refl }
  abort_if-Agree k l false s c h next = next

  pub last-Agree :
      (b : Bool) (s : HttpStatus) (c : Code)
      → s ≡ http_code unknown denied c
      → Agree IsSame (translate unknown denied) (abort_if b s) (refuse_if b c)
  last-Agree true s c h = record { answers = λ w. h; worlds = λ w. refl }
  last-Agree false s c h = pure-Agree tt tt refl

  pub now-Agree : Agree IsSame (translate unknown denied) now now
  now-Agree = record { answers = λ w. refl; worlds = λ w. refl }

  -- One call, whose errors the two translate alike.
  pub query-Agree :
      {X A : Type 0} (m : Action X A) (f : X → HttpStatus) (g : X → Status)
      → ((e : X) → f e ≡ translate unknown denied (g e))
      → Agree IsSame (translate unknown denied) (or_else m f) (or_else m g)
  query-Agree {X} {A} m f g same = record { answers = λ w. go (m w).0; worlds = λ w. refl }
    where
      go :
          (r : Result X A)
          → Related IsSame (translate unknown denied) (map_result f r) (map_result g r)
      go (ok a) = refl
      go (err e) = same e

-- The payload that the middleware has set is the one that the interceptor has.
pub must_get-Agree :
    {denied : HttpStatus} (ctx : GinContext) (gctx : Grpc.Context)
    → ctx.payload ≡ gctx.auth_payload
    → Agree IsSame (http_status denied) (must_get ctx) (Grpc.caller gctx)
must_get-Agree {denied} ctx gctx h = rw h (go gctx.auth_payload)
  where
    go :
        (o : Option Payload)
        → Agree IsSame (http_status denied) (payload_or_panic o) (Grpc.payload_or_fail o)
    go none = record { answers = λ w. refl; worlds = λ w. refl }
    go (some p) = pure-Agree p p refl

pub not_found_same :
    (unknown denied : HttpStatus) (e : DbError)
    → not_found_or_500 e ≡ translate unknown denied (not_found_or_internal e)
not_found_same unknown denied e = ground arith
