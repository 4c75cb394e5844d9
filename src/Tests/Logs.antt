-- ===== src/Tests/Logs.antt =====
-- Calls and requests of the small bank through the interceptors and the middleware of the log.
use go_bank.Common.{
  ◌≡◌, ◌↔◌, refl, true, false, ◌⊎◌, inl, inr, none, some, List, [], ◌∷◌, String, ℕ, str_eq,
}
use go_bank.Common.Int.{pos}
use go_bank.Common.Text.Search.{has_prefix, has_suffix, before_first, before_last, to_lower}
use go_bank.Common.Text.Search.Names.{has_no_slash, is_name}
use go_bank.Common.Text.{trim_space}
use go_bank.Db.World.{err}
use go_bank.Gapi.Status.{Rpc, status, not_found}
use go_bank.Gapi.Server.{Context}
use go_bank.Web.{Request, HttpHandler, sets, sends, writes, header_get, fresh, status_of}
use go_bank.Logger.Entry.{debug, warn, error, Line}
use go_bank.Logger.Core.{Package, Logger, stdout, stderr, default_config, build_core, new}
use go_bank.Logger.Values.{background}
use go_bank.Logger.Grpc.{Views, Logged, is_skipped, unary_server_interceptor}
use go_bank.Logger.Grpc.Codes.{error_of, status_code}
use go_bank.Logger.Grpc.Transparent.{
  SameCall, Named, Written, path_of, unary_server_interceptor-Written,
}
use go_bank.Logger.Http.{
  Served, hex_digits, http_middleware, is_skipped as skips, correlate, redact,
}
use go_bank.Logger.Http.Client.{real_ip}
use go_bank.Logger.Http.Options.{is_sensitive, request_id_header, trace_id_header}
use go_bank.Logger.Http.Truth.{Truthful, http_middleware-Truthful}
use go_bank.Logger.Http.Redaction.{lines_left, http_middleware_hides}
use go_bank.Process.Rpc.{Call, Reply, get_account_call, grpc_opts, serve_call}
use go_bank.Process.Rpc.Access.{Outcome, level_of, serve_call_cases}
use go_bank.Process.Gateway.{Upstream, is_allowed, http_opts, serve_http}
use go_bank.Process.Gateway.Origins.{Trusted}
use go_bank.Process.Gateway.Cors.{Quiet, Tells, serve_http-Tells}
use go_bank.Tests.Data.{bank, server, as_alice}
use go_bank.Tests.Tokens.{with_header}

abbrev pub at_start : Package
at_start = record { global = none; once = false }

abbrev pub log : Logger
log = new (default_config "go-bank" "1.0.0" "development")

development_log : log.config.development ≡ true
unfolding new default_config
development_log = refl

errors_to_stderr :
    (build_core log.config error ≡ stderr ∷ [])
    × (build_core log.config warn ≡ stdout ∷ [])
    × (build_core log.config debug ≡ [])
unfolding new default_config build_core
errors_to_stderr = (refl, refl, refl)

abbrev pub views : {A : Type 0} → Views A
views = record { message = λ s. "message"; req = none; resp = λ r. none }

abbrev refuse : Context → Rpc ℕ
refuse ctx w = (err (status not_found), w)

service_name : is_name "pb.GoBank" ≡ true
unfolding is_name has_no_slash
service_name = refl

method_name : is_name "GetAccount" ≡ true
unfolding is_name has_no_slash
method_name = refl

unary_server_interceptor-Written_example :
    let full_method = path_of "pb.GoBank" "GetAccount" in
    (inner : Context) × (out : Logged ℕ) × (unary_server_interceptor at_start
        (grpc_opts log)
        views
        full_method
        as_alice
        refuse
        bank
      ≡ some out)
    × SameCall as_alice inner
    × (out.result ≡ err (status not_found))
    × (out.world ≡ bank)
    × ((is_skipped (grpc_opts log) full_method ≡ true) × (out.lines ≡ [])
        ⊎ (is_skipped (grpc_opts log) full_method ≡ false)
          × (context : List _) × Named log "pb.GoBank" "GetAccount" context
          × Written (grpc_opts log) full_method context (error_of out.result) out.lines)
unfolding grpc_opts
unary_server_interceptor-Written_example =
    unary_server_interceptor-Written at_start (grpc_opts log) views "pb.GoBank" "GetAccount"
      as_alice refuse bank log service_name method_name refl

abbrev read_first : Call
read_first = get_account_call (pos 1)

serve_call_cases_example :
    (inner : Context) × (out : Logged Reply) × (serve_call at_start log views server read_first
        with_header bank
      ≡ some out)
    × SameCall with_header inner
    × Outcome server read_first with_header inner bank (out.result, out.world)
    × (line : Line) × (out.lines ≡ line ∷ [])
    × (line.level ≡ level_of (status_code (error_of out.result)))
serve_call_cases_example = serve_call_cases at_start log views server read_first with_header bank

-- A request of a browser, and a handler that knows no page.
abbrev request_with : List (String × List String) → (method : String) → Request
request_with header method = record {
  method = method;
  path = "/v1/accounts";
  header = header;
  proto = "HTTP/1.1";
  host = "bank";
  remote_addr = "10.0.0.1:5000";
  content_length = pos 0;
  body = none;
  values = background;
}

abbrev headers_of : (token : String) → List (String × List String)
headers_of token = ("Origin", "http://localhost:3000" ∷ []) ∷ ("Authorization", token ∷ []) ∷ []

abbrev request : Request
request = request_with (headers_of "Bearer token") "GET"

abbrev missing : HttpHandler
missing r w = (sets "Content-Type" "text/plain" ∷ sends 404 ∷ writes (1 ∷ 2 ∷ []) ∷ [], w)

address : real_ip request ≡ "10.0.0.1"
unfolding real_ip header_get before_first before_last to_lower
address = refl

forwarded :
    real_ip (request_with (("X-Forwarded-For", "1.2.3.4 , 5.6.7.8" ∷ []) ∷ []) "GET") ≡ "1.2.3.4"
unfolding real_ip header_get to_lower before_first trim_space
forwarded = refl

redacted :
    redact (http_opts log) request.header
    ≡ ("Origin", "http://localhost:3000") ∷ ("Authorization", "[REDACTED]") ∷ []
unfolding redact is_sensitive to_lower http_opts
redacted = refl

hexadecimal : hex_digits 4 0xbeef ≡ "beef"
unfolding hex_digits
hexadecimal = refl

logged_path : skips (http_opts log) "/v1/accounts" ≡ false
unfolding skips http_opts has_prefix
logged_path = refl

http_middleware-Truthful_example :
    (out : Served) × (http_middleware (http_opts log) missing at_start request (fresh request) bank
      ≡ some out)
    × Truthful (http_opts log) missing request (fresh request) bank out
unfolding http_opts
http_middleware-Truthful_example =
    http_middleware-Truthful (http_opts log) missing log request (fresh request) bank refl refl refl
      refl refl (λ r w. (refl, (refl, (refl, tt)))) at_start logged_path refl

abbrev other_token : List (String × List String)
other_token = headers_of "Bearer other"

http_middleware_hides_example :
    lines_left (
      http_middleware
        (http_opts log)
        missing
        at_start
        (record request { header = request.header })
        (fresh request)
        bank)
    ≡ lines_left (
        http_middleware
          (http_opts log)
          missing
          at_start
          (record request { header = other_token })
          (fresh request)
          bank)
unfolding http_opts is_sensitive to_lower request_id_header trace_id_header correlate header_get
http_middleware_hides_example =
    http_middleware_hides (http_opts log) (refl, refl, refl, refl, refl, refl, refl) refl log
      request.header other_token (refl, inr refl, (refl, inl refl, tt)) request (fresh request) bank
      at_start missing refl refl refl

-- Behind the gateway there is nothing but that handler.
abbrev upstream : Upstream
upstream = record {
  grpc_mux = missing;
  redirects = λ r. false;
  redirect = missing;
  swagger = record { swagger_spec = []; unmarshal = λ m. m; html = λ m t. [] };
}

abbrev preflight : Request
preflight = request_with (headers_of "Bearer token") "OPTIONS"

local_origin : is_allowed (header_get preflight.header "Origin") ≡ true
unfolding is_allowed header_get to_lower has_suffix
local_origin = refl

missing-Quiet : Quiet missing
unfolding to_lower
missing-Quiet r w =
    ((refl, (refl, (refl, tt))), (refl, (refl, (refl, tt))), (refl, (refl, (refl, tt))))

serve_http-Tells_example :
    (out : Served) × (serve_http at_start log upstream preflight bank ≡ some out)
    × Tells
        (is_allowed (header_get preflight.header "Origin"))
        (header_get preflight.header "Origin")
        out.response
    × (is_allowed (header_get preflight.header "Origin") ≡ true
        ↔ Trusted (header_get preflight.header "Origin"))
    × (str_eq preflight.method "OPTIONS" ≡ true
        → (status_of out.response.sent ≡ 200)
          × (out.response.body ≡ [])
          × (d : ℕ) × (out.world ≡ record bank { drawn = d }))
serve_http-Tells_example =
    serve_http-Tells at_start log upstream preflight bank missing-Quiet missing-Quiet logged_path
