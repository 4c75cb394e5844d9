-- ===== src/Logger/Http/Lines.antt =====
-- logger/http.go: the correlation id and the lines of a request that the middleware does not skip.
use Prim.Native.String
use Prim.Native.Char.{Char}
use Prim.Native.String.append.{nil, cons}
use go_bank.Common.{
  ℕ, suc, Bool, false, Option, none, some, List, [], ◌∷◌, ◌++◌, String, if◌then◌else◌, leb, str_eq,
  ◌≡◌, ◌≢◌, refl, ap, ◌∙◌, arith, inl, inr, Bool-cases, eq_iff,
}
use go_bank.Common.Lists.{has_row}
use go_bank.Common.Text.{single}
use go_bank.Db.World.{World}
use go_bank.Web.{Request, Response, HttpHandler, header_get, header_set}
use go_bank.Logger.Entry.{Level, debug, info, warn, error, Field}
use go_bank.Logger.Core.{Logger, with_base, log_line, log_at_level}
use go_bank.Logger.Recorder.{ResponseRecorder}
use go_bank.Logger.Http.{
  default_http_decider, hex_digits, generate_request_id, correlate, scope, scoped_logger,
  arrival_line, capture_body, captured, finish_fields, finish_lines, call_next, decided_lines,
  decide, serve_captured, serve_logged,
}
use go_bank.Logger.Http.Options.{HttpLogOptions, request_id_header, trace_id_header}

ends_nonempty : (s : String) (c : Char) → String.◌++◌ s (single c) ≢ ""
ends_nonempty String.[] c h = cc (nil (single c))
ends_nonempty (String.◌∷◌ d s) c h = cc (cons d s (single c))

hex_digits_nonempty : (n k : ℕ) → hex_digits (suc n) k ≢ ""
unfolding hex_digits
hex_digits_nonempty n k = ends_nonempty _ _

-- The id is never empty, and is the one that the request carries, if it carries one.
pub correlate_lem :
    (opts : HttpLogOptions) (r : Request) (w : World)
    → ((correlate opts r w).0 ≢ "")
      × (header_get r.header (request_id_header opts) ≢ ""
          → correlate opts r w ≡ (header_get r.header (request_id_header opts), w))
unfolding correlate generate_request_id
correlate_lem opts r w =
    let id = header_get r.header (request_id_header opts) in
    elim (Bool-cases (str_eq id "")) [
      | inl empty ↦
          rw empty (
            hex_digits_nonempty 31 (w.draws w.drawn),
            λ sent. absurd (sent ((eq_iff id "").0 empty)),
          )
      | inr sent ↦ rw sent (λ e. cc ((eq_iff id "").1 e), λ _. refl)
    ]

-- The request that the handler gets.
abbrev pub inner_request : HttpLogOptions → Logger → Request → World → Request
inner_request opts base r w =
    let req_id = (correlate opts r w).0 in
    let trace_id = header_get r.header (trace_id_header opts) in
    scope r req_id trace_id (scoped_logger base req_id trace_id r)

-- The writer that it gets, with the id in its header.
abbrev pub named_response : HttpLogOptions → Request → Response → World → Response
named_response opts r response w = record response {
  header = header_set response.header (request_id_header opts) (correlate opts r w).0;
}

abbrev pub request_logger : HttpLogOptions → Logger → Request → World → Logger
request_logger opts base r w =
    scoped_logger base (correlate opts r w).0 (header_get r.header (trace_id_header opts)) r

capture_off :
    (opts : HttpLogOptions) (l : Logger) (r : Request) (response : Response)
    → opts.log_request_body ≡ false
    → capture_body opts l r response ≡ record { request = r; response = response; lines = [] }
unfolding capture_body captured
capture_off opts l r response off =
    ap (λ b. captured opts l r response (if b then r.body else none)) off

pub serve_logged_lem :
    (opts : HttpLogOptions) (next : HttpHandler) (base : Logger) (r : Request) (response : Response)
    (w : World)
    → opts.log_request_body ≡ false
    → let l = request_logger opts base r w in
      let scoped = inner_request opts base r w in
      let done =
        call_next opts next l base.config.development w.clock scoped
          (named_response opts r response w)
          (correlate opts r w).1 in
      serve_logged opts next base r response w
      ≡ record done { lines = arrival_line l scoped ∷ done.lines }
unfolding serve_logged serve_captured
serve_logged_lem opts next base r response w off =
    let l = request_logger opts base r w in
    let scoped = inner_request opts base r w in
    ap
      (λ c.
        serve_captured opts next l base.config.development w.clock (arrival_line l scoped) c
          (correlate opts r w).1)
      (capture_off opts l scoped (named_response opts r response w) off)

-- The level of a finished request: by its status, and lower on a path of observability.
abbrev pub level_of : HttpLogOptions → (path : String) → (status : ℕ) → Level
level_of opts path status =
    if leb 500 status
    then error
    else if leb 400 status
    then warn
    else if has_row (str_eq path) opts.observability_paths
    then debug
    else info

abbrev pub first_field : List Field → Option Field
first_field [] = none
first_field (f ∷ fs) = some f

decided_lines_lem :
    (opts : HttpLogOptions) (l : Logger) (r : Request) (fields : List Field) (status latency : ℕ)
    → decided_lines opts l r.path fields (default_http_decider status latency r)
      ≡ record {
        level = level_of opts r.path status;
        message = "HTTP finished";
        fields = l.fields ++ fields;
      }
        ∷ []
unfolding decided_lines default_http_decider log_at_level log_line with_base
decided_lines_lem opts l r fields status latency = ground arith

-- With the default decider there is one line at the end, whose level and status are the recorder's.
pub finish_lines_lem :
    (opts : HttpLogOptions) (l : Logger) (development : Bool) (r : Request) (rec : ResponseRecorder)
    (elapsed : ℕ)
    → opts.decider_func ≡ none
    → finish_lines opts l development r rec elapsed
      ≡ record {
        level = level_of opts r.path rec.status_code;
        message = "HTTP finished";
        fields = l.fields ++ finish_fields opts development r rec elapsed;
      }
        ∷ []
unfolding finish_lines
finish_lines_lem opts l development r rec elapsed d =
    let fields = finish_fields opts development r rec elapsed in
    ap (λ f. decided_lines opts l r.path fields (decide f rec.status_code elapsed r)) d
    ∙ decided_lines_lem opts l r fields rec.status_code elapsed
