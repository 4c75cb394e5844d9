-- ===== src/Logger/Http.antt =====
-- logger/http.go: the middleware of the HTTP server. The lines that it writes are part of its result.
pub mod Client
pub mod Options
pub mod Lines
pub mod Truth
pub mod Redaction
use Prim.Native.String
use go_bank.Common.{
  ℕ, zero, suc, ◌+◌, ◌-◌, ◌/◌, ◌%◌, ◌^◌, Bool, true, false, ◌&&◌, ◌||◌, Option, none, some, List,
  [], ◌∷◌, ◌++◌, String, if◌then◌else◌, leb, str_eq,
}
use go_bank.Common.Int.{pos, ltb_ℤ}
use go_bank.Common.Lists.{length, take, has_row}
use go_bank.Common.Text.{single}
use go_bank.Common.Text.Search.{has_prefix, to_lower}
use go_bank.Db.World.{World}
use go_bank.Web.{Request, Response, Step, HttpHandler, header_get, header_set, run_steps}
use go_bank.Logger.Entry.{
  Level, debug, info, warn, error, Field, Line, text, number, milliseconds, bytes, headers,
  string_field,
}
use go_bank.Logger.Core.{Logger, Package, own_or_global, with_fields, log_line, log_at_level}
use go_bank.Logger.Values.{Values, into_context}
use go_bank.Logger.Recorder.{ResponseRecorder, new_response_recorder, note_steps}
use go_bank.Logger.Grpc.{unless_empty}
use go_bank.Logger.Http.Client.{real_ip}
use go_bank.Logger.Http.Options.{
  HttpLogOptions, request_id_header, trace_id_header, max_body_size, is_sensitive,
}

unfoldable pub default_http_decider : (status latency : ℕ) → Request → Level × Bool
default_http_decider status latency r =
    if leb 500 status then (error, true) else if leb 400 status then (warn, true) else (info, true)

-- The last `n` hexadecimal digits of a number.
unfoldable pub hex_digits : (n k : ℕ) → String
hex_digits zero k = ""
hex_digits (suc n) k =
    String.◌++◌ (hex_digits n (k / 16)) (single (String.char_at "0123456789abcdef" (k % 16)))

-- Sixteen random bytes, as one number, in hexadecimal.
unfoldable pub generate_request_id : World → String × World
unfolding hex_digits
generate_request_id w = (hex_digits 32 (w.draws w.drawn), record w { drawn = suc w.drawn })

unfoldable pub sanitise_path : Request → String
sanitise_path r = r.path

-- The skip list.
unfoldable pub is_skipped : HttpLogOptions → (path : String) → Bool
unfolding has_prefix
is_skipped opts path =
    has_row (str_eq path) opts.skip_paths
    || has_row (λ prefix. has_prefix path prefix) opts.skip_path_prefixes

-- The correlation id of a request: its header, or a new one.
unfoldable pub correlate : HttpLogOptions → Request → World → String × World
unfolding header_get request_id_header generate_request_id
correlate opts r w =
    let id = header_get r.header (request_id_header opts) in
    if str_eq id "" then generate_request_id w else (id, w)

abbrev keep_trace_id : String → Values → Values
keep_trace_id id v = if str_eq id "" then v else record v { trace_id = some id }

abbrev pub scoped_logger : Logger → (req_id trace_id : String) → Request → Logger
unfolding sanitise_path with_fields
scoped_logger base req_id trace_id r = with_fields base (
    string_field "request_id" req_id
    ∷ string_field "http.method" r.method
    ∷ string_field "http.path" (sanitise_path r)
    ∷ unless_empty "trace_id" trace_id)

-- The request that the handler gets: its context has the ids and the scoped logger.
unfoldable pub scope : Request → (req_id trace_id : String) → Logger → Request
unfolding into_context
scope r req_id trace_id l = record r {
  values = into_context (keep_trace_id trace_id (record (r.values) { request_id = some req_id })) l;
}

abbrev pub arrival_line : Logger → Request → Line
unfolding real_ip log_line
arrival_line l r = log_line debug l "HTTP started" (
    string_field "http.proto" r.proto
    ∷ string_field "http.ip" (real_ip r)
    ∷ string_field "http.host" r.host
    ∷ [])

-- What the capture of a body leaves: the request, the writer and the line. `http.MaxBytesReader` gives the
-- bytes up to the limit; on a longer body it returns an error and asks the server to close the connection.
pub record Captured : Type 0 where
  pub request : Request
  pub response : Response
  pub lines : List Line

abbrev pub captured : HttpLogOptions → Logger → Request → Response → Option (List ℕ) → Captured
unfolding max_body_size log_line header_set
captured opts l r w none = record { request = r; response = w; lines = [] }
captured opts l r w (some body) =
    if leb (length body) (max_body_size opts)
    then record {
      request = r;
      response = w;
      lines =
          log_line debug l "HTTP request body"
            (record { key = "http.body"; value = bytes body } ∷ [])
          ∷ [];
    }
    else record {
      request = record r { body = some (take (max_body_size opts) body) };
      response = record w { header = header_set w.header "Connection" "close" };
      lines = [];
    }

unfoldable pub capture_body : HttpLogOptions → Logger → Request → Response → Captured
capture_body opts l r w = captured opts l r w (if opts.log_request_body then r.body else none)

-- `strings.Join(values, ", ")`
abbrev join_values : List String → String
join_values [] = ""
join_values (v ∷ []) = v
join_values (v ∷ v' ∷ vs) = String.◌++◌ v (String.◌++◌ ", " (join_values (v' ∷ vs)))

-- The headers as a development log shows them.
unfoldable pub redact : HttpLogOptions → List (String × List String) → List (String × String)
unfolding is_sensitive
redact opts [] = []
redact opts ((k, values) ∷ hs) =
    (k, if is_sensitive opts k then "[REDACTED]" else join_values values) ∷ redact opts hs

unfoldable pub finish_fields :
    HttpLogOptions → (development : Bool) → Request → ResponseRecorder → (elapsed : ℕ) → List Field
unfolding real_ip header_get redact
finish_fields opts development r rec elapsed =
    record { key = "http.status"; value = number (pos rec.status_code) }
    ∷ record { key = "http.dur_ms"; value = milliseconds elapsed }
    ∷ record { key = "http.bytes"; value = number (pos rec.bytes_written) }
    ∷ string_field "http.ip" (real_ip r)
    ∷ string_field "http.proto" r.proto
    ∷ (unless_empty "http.ua" (header_get r.header "User-Agent")
        ++ (unless_empty "http.referer" (header_get r.header "Referer")
            ++ ((if ltb_ℤ (pos 0) r.content_length
                  then record { key = "http.req_bytes"; value = number r.content_length } ∷ []
                  else [])
                ++ (if development
                    then record { key = "http.headers"; value = headers (redact opts r.header) }
                      ∷ []
                    else []))))

abbrev is_info : Level → Bool
is_info info = true
is_info _ = false

abbrev pub decide :
    Option (ℕ → ℕ → Request → Level × Bool) → (status latency : ℕ) → Request → Level × Bool
decide none = default_http_decider
decide (some f) = f

-- The line of a finished request, unless the decider has suppressed it.
unfoldable pub decided_lines :
    HttpLogOptions → Logger → (path : String) → List Field → Level × Bool → List Line
unfolding log_at_level
decided_lines opts l path fields (level, should_log) =
    let observed =
      if has_row (str_eq path) opts.observability_paths && is_info level then debug else level in
    if should_log then log_at_level l observed "HTTP finished" fields ∷ [] else []

unfoldable pub finish_lines :
    HttpLogOptions → Logger → (development : Bool) → Request → ResponseRecorder → ℕ → List Line
unfolding finish_fields decided_lines
finish_lines opts l development r rec elapsed =
    decided_lines opts l r.path (finish_fields opts development r rec elapsed)
      (decide opts.decider_func rec.status_code elapsed r)

-- What a request leaves, with the lines that the middleware has written, in order.
pub record Served : Type 0 where
  pub response : Response
  pub world : World
  pub lines : List Line

module _ (opts : HttpLogOptions) (next : HttpHandler) where
  -- The call of the handler and what follows it; `start` is the time of the arrival.
  unfoldable pub call_next :
      Logger → (development : Bool) → (start : ℕ) → Request → Response → World → Served
  unfolding note_steps new_response_recorder finish_lines
  call_next l development start r response w =
      let (steps, w') = next r w in
      let rec = note_steps steps (new_response_recorder response) in
      record {
        response = rec.response;
        world = w';
        lines = finish_lines opts l development r rec (w'.clock - start);
      }

  unfoldable pub serve_captured :
      Logger → (development : Bool) → (start : ℕ) → (arrival : Line) → Captured → World → Served
  unfolding call_next
  serve_captured l development start arrival c w =
      let done = call_next l development start c.request c.response w in
      record done { lines = arrival ∷ (c.lines ++ done.lines) }

  -- A request that is not skipped, with the logger of the options.
  unfoldable pub serve_logged : Logger → Request → Response → World → Served
  unfolding correlate scope capture_body serve_captured request_id_header trace_id_header header_get
      header_set
  serve_logged base r response w =
      let (req_id, w') = correlate opts r w in
      let trace_id = header_get r.header (trace_id_header opts) in
      let named = record response {
        header = header_set response.header (request_id_header opts) req_id;
      } in
      let l = scoped_logger base req_id trace_id r in
      let scoped = scope r req_id trace_id l in
      serve_captured l base.config.development w.clock (arrival_line l scoped)
        (capture_body opts l scoped named) w'

  -- None is the panic of G.
  unfoldable pub http_middleware : Package → Request → Response → World → Option Served
  unfolding is_skipped serve_logged run_steps
  http_middleware p r response w =
      if is_skipped opts r.path
      then (let (steps, w') = next r w in
          some (record { response = run_steps steps response; world = w'; lines = [] }))
      else elim (own_or_global opts.logger p) [
        | none ↦ none
        | some base ↦ some (serve_logged base r response w)
      ]
