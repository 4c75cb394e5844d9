-- ===== src/Logger/Grpc.antt =====
-- logger/grpc.go: the unary interceptor and what the stream interceptor shares with it. The lines that an
-- interceptor writes are part of its result. `path.Dir` and `path.Base` of a full method, which gRPC gives
-- as /service/method, cut it at its last slash. Third-party code shows what a log has of a message.
pub mod Codes
pub mod Transparent
use Prim.Native.Char.{code}
use Prim.Native.String
use go_bank.Common.{
  ℕ, ◌-◌, Bool, true, false, ◌&&◌, not, Option, none, some, List, [], ◌∷◌, ◌++◌, String,
  if◌then◌else◌, ltb, ◌==◌, str_eq,
}
use go_bank.Common.Int.{ℤ, pos, ◌-ℤ◌}
use go_bank.Common.Lists.{has_row}
use go_bank.Common.Text.Search.{before_last, after_last, to_lower}
use go_bank.Token.Payload.{Payload}
use go_bank.Db.World.{World, Result}
use go_bank.Gapi.Status.{Status, Rpc}
use go_bank.Gapi.Server.{Context}
use go_bank.Gapi.Metadata.{md_get, first_or}
use go_bank.Logger.Entry.{Level, Value, Field, Line, text, flag, milliseconds, span, string_field}
use go_bank.Logger.Core.{Logger, Package, own_or_global, with_fields, log_at_level}
use go_bank.Logger.Values.{Values, from_context, into_context}
use go_bank.Logger.Grpc.Codes.{error_of, status_code, code_name, default_decider}

pub record GrpcLogOptions : Type 0 where
  pub logger : Option Logger
  pub skip_methods : List String
  pub log_payloads : Bool
  pub decider_func : Option (String → Option Status → Level × Bool)
  pub request_id_header : String
  pub trace_id_header : String
  pub span_id_header : String

-- `if o.Header != "" { return strings.ToLower(o.Header) }`, or the default.
abbrev pub header_or : String → String → String
header_or name default = if str_eq name "" then default else to_lower name

unfoldable pub request_id_header : GrpcLogOptions → String
request_id_header o = header_or o.request_id_header "x-request-id"

unfoldable pub trace_id_header : GrpcLogOptions → String
trace_id_header o = header_or o.trace_id_header "x-trace-id"

unfoldable pub span_id_header : GrpcLogOptions → String
span_id_header o = header_or o.span_id_header "x-span-id"

pub record GrpcFields : Type 0 where
  pub service : String
  pub method : String
  pub peer_addr : String
  pub user_agent : String
  pub request_id : String
  pub trace_id : String
  pub span_id : String
  pub username : String
  pub deadline : Option ℕ

unfoldable pub first_md : List (String × List String) → String → String
unfolding md_get
first_md md key = first_or (md_get key md) ""

-- The service of a full method: `path.Dir`, without its leading slash. gRPC makes the full
-- method of two names, so it is a clean path.
abbrev pub without_slash : String → String
without_slash String.[] = ""
without_slash (String.◌∷◌ c s) = if code c == b'/' then s else String.◌∷◌ c s

abbrev pub dir : Option String → String
dir none = "."
dir (some s) = s

abbrev or_empty : Option String → String
or_empty none = ""
or_empty (some s) = s

-- The username of the payload under the package's own key.
abbrev username_of : Option Payload → String
username_of none = ""
username_of (some p) = p.username

abbrev from_md : GrpcLogOptions → Option (List (String × List String)) → GrpcFields → GrpcFields
unfolding request_id_header trace_id_header span_id_header first_md
from_md opts none f = f
from_md opts (some md) f =
    let ua = first_md md "grpcgateway-user-agent" in
    record f {
      request_id = first_md md (request_id_header opts);
      trace_id = first_md md (trace_id_header opts);
      span_id = first_md md (span_id_header opts);
      user_agent = if str_eq ua "" then first_md md "user-agent" else ua;
    }

unfoldable pub extract_grpc_fields : Context → (full_method : String) → GrpcLogOptions → GrpcFields
unfolding before_last after_last request_id_header trace_id_header span_id_header first_md
extract_grpc_fields ctx full_method opts = from_md opts ctx.metadata (record {
  service = without_slash (dir (before_last full_method b'/'));
  method = after_last full_method b'/';
  peer_addr = or_empty ctx.peer;
  user_agent = "";
  request_id = "";
  trace_id = "";
  span_id = "";
  username = username_of ctx.values.auth_payload;
  deadline = ctx.deadline;
})

-- `if value != "" { fields = append(fields, zap.String(key, value)) }`
abbrev pub unless_empty : String → String → List Field
unless_empty key value = if str_eq value "" then [] else string_field key value ∷ []

abbrev keep_request_id : String → Values → Values
keep_request_id id v = if str_eq id "" then v else record v { request_id = some id }

unfoldable pub enrich_context : Context → GrpcFields → Logger → Context
unfolding into_context with_fields
enrich_context ctx f base =
    let fields =
      string_field "grpc.svc" f.service
      ∷ string_field "grpc.method" f.method
      ∷ (unless_empty "request_id" f.request_id
          ++ (unless_empty "trace_id" f.trace_id ++ unless_empty "user" f.username)) in
    record ctx {
      values = into_context (keep_request_id f.request_id ctx.values) (with_fields base fields);
    }

-- `status.Convert(err).Message()` of an error is a text of third-party code.
abbrev error_fields : (Status → String) → Option Status → List Field
error_fields message none = []
error_fields message (some e) = string_field "grpc.error" (message e) ∷ []

abbrev deadline_fields : Option ℕ → ℕ → List Field
deadline_fields none now = []
deadline_fields (some d) now =
    record { key = "grpc.deadline_remaining"; value = span (pos d -ℤ pos now) }
    ∷ record { key = "grpc.deadline_exceeded"; value = flag (ltb d now) }
    ∷ []

-- `now` is the time of `time.Until`.
unfoldable pub build_finish_fields :
    (message : Status → String) → GrpcFields → (elapsed now : ℕ) → Option Status → List Field
build_finish_fields message f elapsed now e =
    string_field "grpc.code" (code_name (status_code e))
    ∷ record { key = "grpc.dur_ms"; value = milliseconds elapsed }
    ∷ string_field "grpc.peer" f.peer_addr
    ∷ (unless_empty "grpc.ua" f.user_agent
        ++ (error_fields message e ++ deadline_fields f.deadline now))

-- What third-party code shows of a call: the messages of statuses, and the request and the response as zap
-- encodes them, none for a nil interface.
pub record Views (A : Type 0) : Type 0 where
  pub message : Status → String
  pub req : Option Value
  pub resp : Result Status A → Option Value

-- What a call leaves, with the lines that the interceptor has written, in order.
pub record Logged (A : Type 0) : Type 0 where
  pub result : Result Status A
  pub world : World
  pub lines : List Line

abbrev pub with_lines :
    {A : Type 0} → Result Status A → World → Option (List Line) → Option (Logged A)
with_lines r w none = none
with_lines r w (some lines) = some (record { result = r; world = w; lines = lines })

abbrev payload_fields : Bool → String → Option Value → List Field
payload_fields true key (some v) = record { key = key; value = v } ∷ []
payload_fields _ key _ = []

abbrev pub decide :
    Option (String → Option Status → Level × Bool) → String → Option Status → Level × Bool
decide none = default_decider
decide (some f) = f

abbrev pub is_skipped : GrpcLogOptions → String → Bool
is_skipped opts full_method = has_row (str_eq full_method) opts.skip_methods

-- The line of a finished call, unless the decider suppresses it; none is the panic of G.
unfoldable pub finish_line :
    Package
    → GrpcLogOptions
    → (full_method message : String) → Values
    → (fields : List Field) → Option Status
    → Option (List Line)
unfolding from_context log_at_level
finish_line p opts full_method message values fields e =
    let (level, should_log) = decide opts.decider_func full_method e in
    if should_log
    then elim (from_context p values) [
      | none ↦ none
      | some l ↦ some (log_at_level l level message fields ∷ [])
    ]
    else some []

module _ {A : Type 0} (p : Package) (opts : GrpcLogOptions) (views : Views A) where
  -- The fields of the line of a finished call.
  unfoldable pub call_fields : GrpcFields → Context → (start now : ℕ) → Result Status A → List Field
  unfolding build_finish_fields
  call_fields f ctx start now r =
      let username =
        if str_eq f.username "" then username_of ctx.values.auth_payload else f.username in
      build_finish_fields views.message (record f { username = username }) (now - start) now
        (error_of r)
      ++ (payload_fields opts.log_payloads "grpc.req" views.req
          ++ payload_fields opts.log_payloads "grpc.resp" (views.resp r))

  -- What follows the handler: `start` is the time before it, `r` and `w` what it has left.
  unfoldable pub after_handler :
      (full_method : String)
      → GrpcFields
      → Context
      → (start : ℕ) → Result Status A
      → World
      → Option (Logged A)
  unfolding call_fields finish_line
  after_handler full_method f ctx start r w = with_lines r w (
      finish_line p opts full_method "gRPC" ctx.values (call_fields f ctx start w.clock r)
        (error_of r))

  -- None is a panic.
  unfoldable pub unary_server_interceptor :
      (full_method : String) → Context → (Context → Rpc A) → World → Option (Logged A)
  unfolding after_handler extract_grpc_fields enrich_context
  unary_server_interceptor full_method ctx handler w =
      if is_skipped opts full_method
      then (let (r, w') = handler ctx w in some (record { result = r; world = w'; lines = [] }))
      else elim (own_or_global opts.logger p) [
        | none ↦ none
        | some base ↦
            let f = extract_grpc_fields ctx full_method opts in
            let inner = enrich_context ctx f base in
            let (r, w') = handler inner w in after_handler full_method f inner w.clock r w'
      ]
