-- ===== src/Process/Rpc/Access.antt =====
-- What a call to the gRPC server can do.
use go_bank.Common.{
  ◌≡◌, refl, ap, sym, ◌∙◌, Bool, true, false, ◌⊎◌, inl, inr, Option, none, some, List, [], ◌∷◌,
  String,
}
use mathlib.Core.Path.{subst₂}
use go_bank.Token.Payload.{Payload}
use go_bank.Db.World.{World, Result, err}
use go_bank.Gapi.Status.{Code, Status, status, invalid_fields, unauthenticated}
use go_bank.Gapi.Server.{Server, Context}
use go_bank.Gapi.Interceptor.{is_public_route, auth_interceptor}
use go_bank.Gapi.Interceptor.Access.{Carries}
use go_bank.Gapi.Interceptor.Cases.{auth_interceptor_cases}
use go_bank.Logger.Entry.{Level, info, warn, error, Field, Line}
use go_bank.Logger.Core.{Logger, Package}
use go_bank.Logger.Grpc.Codes.{GrpcCode, error_of, status_code, default_decider}
use go_bank.Logger.Grpc.{Views, Logged, is_skipped, extract_grpc_fields}
use go_bank.Logger.Grpc.Transparent.{
  SameCall, Named, written_level, Written, suppressed, told, unary_server_interceptor_lem,
}
use go_bank.Process.Rpc.{
  Call, Reply, create_user_call, login_user_call, renew_access_token_call, verify_email_call,
  full_method, run_call, grpc_opts, serve_call,
}

-- The methods that need no token.
abbrev pub is_public : Call → Bool
is_public (create_user_call req) = true
is_public (login_user_call username password) = true
is_public (renew_access_token_call refresh_token) = true
is_public (verify_email_call email_id secret_code) = true
is_public _ = false

public_route : (call : Call) → is_public_route (full_method call) ≡ is_public call
unfolding is_public_route full_method
public_route (create_user_call req) = refl
public_route _ = refl

never_skipped : (l : Logger) (call : Call) → is_skipped (grpc_opts l) (full_method call) ≡ false
unfolding grpc_opts full_method
never_skipped l (create_user_call req) = refl
never_skipped l _ = refl

-- The level of a call's line, by the code of its result.
abbrev pub level_of : GrpcCode → Level
level_of GrpcCode.ok = info
level_of GrpcCode.internal = error
level_of GrpcCode.unknown = error
level_of GrpcCode.deadline_exceeded = error
level_of GrpcCode.aborted = error
level_of GrpcCode.out_of_range = error
level_of GrpcCode.unimplemented = error
level_of GrpcCode.unavailable = error
level_of GrpcCode.data_loss = error
level_of _ = warn

level_written : (c : GrpcCode) → written_level (level_of c) ≡ level_of c
level_written GrpcCode.ok = refl
level_written _ = refl

decider_level :
    (method : String) (e : Option Status)
    → default_decider method e ≡ (level_of (status_code e), true)
unfolding default_decider
decider_level method none = refl
decider_level method (some (invalid_fields vs)) = refl
decider_level method (some (status Code.internal)) = refl
decider_level method (some (status _)) = refl

-- The line of a call that the log of main.go does not skip.
line_of :
    (l : Logger) (call : Call) (context : List Field) (e : Option Status) (lines : List Line)
    → Written (grpc_opts l) (full_method call) context e lines
    → (line : Line) × (lines ≡ line ∷ []) × (line.level ≡ level_of (status_code e))
unfolding grpc_opts
line_of l call context e lines (suppressed silent nothing) =
    cc (ap (λ d. d.1) (decider_level (full_method call) e))
line_of l call context e lines (told more logged one) = (
  _,
  one,
  ap (λ d. written_level d.0) (decider_level (full_method call) e) ∙ level_written (status_code e),
)

carried :
    (server : Server) (ctx inner : Context) (q : Payload) (w : World)
    → inner.metadata ≡ ctx.metadata
    → Carries server inner q w
    → Carries server ctx q w
carried server ctx inner q w same c = record {
  metadata = c.metadata;
  sent = sym same ∙ c.sent;
  header = c.header;
  more = c.more;
  first = c.first;
  auth_type = c.auth_type;
  token = c.token;
  rest = c.rest;
  parts = c.parts;
  bearer = c.bearer;
  verified = c.verified;
}

-- What a call comes to: the handler of a public method; a refusal that changes nothing at all; or the handler
-- with the payload of a bearer token in the call's metadata that the maker verifies.
abbrev pub Outcome :
    Server → Call → (ctx inner : Context) → World → Result Status Reply × World → Type 0
Outcome server call ctx inner w out =
    (is_public call ≡ true) × (out ≡ run_call server call inner w)
    ⊎ (is_public call ≡ false) × (out ≡ (err (status unauthenticated), w))
    ⊎ (is_public call ≡ false)
      × (q : Payload) × Carries server ctx q w
      × (out ≡ run_call server call (record inner { auth_payload = some q }) w)

outcome_of :
    (server : Server) (call : Call) (ctx inner : Context) (w : World)
    → inner.metadata ≡ ctx.metadata
    → Outcome server call ctx inner w
        (auth_interceptor server (full_method call) inner (run_call server call) w)
outcome_of server call ctx inner w same =
    elim (auth_interceptor_cases server (full_method call) inner (run_call server call) w) [
      | inl (free, e) ↦ inl (sym (public_route call) ∙ free, e)
      | inr (inl (closed, e)) ↦ inr (inl (sym (public_route call) ∙ closed, e))
      | inr (inr (closed, q, carries, e)) ↦
          inr (
            inr (sym (public_route call) ∙ closed, q, carried server ctx inner q w same carries, e))
    ]

one_line :
    (l : Logger) (call : Call) (out : Logged Reply) (service method : String)
    → ((is_skipped (grpc_opts l) (full_method call) ≡ true) × (out.lines ≡ [])
        ⊎ (is_skipped (grpc_opts l) (full_method call) ≡ false)
          × (context : List Field) × Named l service method context
          × Written (grpc_opts l) (full_method call) context (error_of out.result) out.lines)
    → (line : Line) × (out.lines ≡ line ∷ [])
      × (line.level ≡ level_of (status_code (error_of out.result)))
one_line l call out service method (inl (skipped, _)) = cc (never_skipped l call)
one_line l call out service method (inr (_, context, named, written)) =
    line_of l call context (error_of out.result) out.lines written

-- Every call to the gRPC server, through both interceptors, is answered and goes one of three ways: to the
-- handler of one of the four public methods; or it is refused as Unauthenticated and nothing at all
-- changes; or its metadata have a bearer token that the maker verifies, and the handler runs in the world
-- of the call with the payload of that token, whatever payload the context held before. The handler's
-- context has the metadata, peer and deadline of the call. In every case one line is logged, at the
-- level of the code of the answer: Info for OK, Warn for what the client did wrong, else Error.
pub serve_call_cases :
    (p : Package) (l : Logger) (views : Views Reply) (server : Server) (call : Call) (ctx : Context)
    (w : World)
    → (inner : Context) × (out : Logged Reply) × (serve_call p l views server call ctx w ≡ some out)
      × SameCall ctx inner
      × Outcome server call ctx inner w (out.result, out.world)
      × (line : Line) × (out.lines ≡ line ∷ [])
      × (line.level ≡ level_of (status_code (error_of out.result)))
unfolding serve_call grpc_opts
serve_call_cases p l views server call ctx w =
    let handler =
      λ (c : Context). auth_interceptor server (full_method call) c (run_call server call) in
    let (inner, out, ran, same, result, world, lines) =
      unary_server_interceptor_lem p (grpc_opts l) views (full_method call) ctx handler w l refl in
    let f = extract_grpc_fields ctx (full_method call) (grpc_opts l) in
    let (line, one, level) = one_line l call out f.service f.method lines in
    (
      inner,
      out,
      ran,
      same,
      subst₂ (λ r v. Outcome server call ctx inner w (r, v)) (sym result) (sym world)
          (outcome_of server call ctx inner w same.1),
      line,
      one,
      level,
    )
