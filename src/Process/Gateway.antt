-- ===== src/Process/Gateway.antt =====
-- main.go: runGatewayServer and corsMiddleware. The gateway of grpc-gateway, which calls the gRPC server, is
-- a parameter, and so is what net/http's ServeMux answers to a path that it redirects (one that is not
-- clean, or /swagger).

pub mod Cors
pub mod Origins
use go_bank.Common.{
  Bool, true, false, ◌||◌, Option, none, some, List, [], ◌∷◌, ◌++◌, String, if◌then◌else◌, str_eq,
}
use go_bank.Common.Text.Search.{has_prefix, has_suffix, to_lower}
use go_bank.Db.World.{World}
use go_bank.Web.{Request, Step, HttpHandler, sets, sends, header_get, fresh}
use go_bank.Gapi.Swagger.{SwaggerPage, swagger_handler}
use go_bank.Logger.Core.{Logger, Package}
use go_bank.Logger.Http.{Served, http_middleware}
use go_bank.Logger.Http.Options.{HttpLogOptions}

-- The matcher of incoming headers: the key under which a header becomes metadata, none if it does not.
-- `default` is runtime.DefaultHeaderMatcher.
unfoldable pub incoming_header_matcher :
    (default : String → Option String) → (key : String) → Option String
unfolding to_lower
incoming_header_matcher default key =
    let lower = to_lower key in
    if str_eq lower "authorization"
      || str_eq lower "x-request-id"
      || str_eq lower "x-trace-id"
      || str_eq lower "x-span-id"
    then some lower
    else default key

-- `allowedOrigins[origin]`
unfoldable pub is_allowed : (origin : String) → Bool
unfolding has_suffix
is_allowed origin =
    str_eq origin "http://localhost:3000"
    || str_eq origin "http://localhost:3001"
    || has_suffix origin ".vercel.app"

abbrev pub cors_headers : (origin : String) → List Step
cors_headers origin =
    sets "Access-Control-Allow-Origin" origin
    ∷ sets "Access-Control-Allow-Methods" "GET, POST, PUT, PATCH, DELETE, OPTIONS"
    ∷ sets "Access-Control-Allow-Headers" "Authorization, Content-Type, X-Request-Id"
    ∷ sets "Access-Control-Allow-Credentials" "true"
    ∷ sets "Access-Control-Max-Age" "86400"
    ∷ sets "Vary" "Origin"
    ∷ []

unfoldable pub cors_middleware : HttpHandler → HttpHandler
unfolding header_get is_allowed
cors_middleware next r w =
    let origin = header_get r.header "Origin" in
    let allow = if is_allowed origin then cors_headers origin else [] in
    if str_eq r.method "OPTIONS"
    then (allow ++ sends 200 ∷ [], w)
    else (let (steps, w') = next r w in (allow ++ steps, w'))

pub record Upstream : Type 0 where
  pub grpc_mux : HttpHandler
  pub redirects : Request → Bool
  pub redirect : HttpHandler
  pub swagger : SwaggerPage

-- `mux`: its four patterns.
unfoldable pub mux : Upstream → HttpHandler
unfolding has_prefix swagger_handler
mux up r w =
    if up.redirects r
    then up.redirect r w
    else if str_eq r.path "/healthz" || str_eq r.path "/readyz"
    then (sends 200 ∷ [], w)
    else if has_prefix r.path "/swagger/"
    then swagger_handler up.swagger r w
    else up.grpc_mux r w

unfoldable pub http_opts : Logger → HttpLogOptions
http_opts l = record {
  logger = some l;
  skip_paths = "/healthz" ∷ "/readyz" ∷ [];
  skip_path_prefixes = "/swagger/" ∷ [];
  decider_func = none;
  request_id_header = "";
  trace_id_header = "";
  log_request_body = false;
  max_body_log_size = 0;
  sensitive_headers = [];
  observability_paths = "/metrics" ∷ [];
}

-- A request to the gateway.
unfoldable pub serve_http : Package → Logger → Upstream → Request → World → Option Served
unfolding http_opts cors_middleware mux
serve_http p l up r w = http_middleware (http_opts l) (cors_middleware (mux up)) p r (fresh r) w
