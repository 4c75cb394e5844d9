-- ===== src/Logger/Http/Truth.antt =====
-- The middleware hands the answer of the handler through, and its log says what the client got.
use go_bank.Common.{
  ℕ, suc, ◌-◌, true, false, none, some, List, [], ◌∷◌, ◌++◌, String, str_eq, ◌≡◌, ◌≢◌, refl, sym,
  ap, ◌∙◌, inl, inr, Bool-cases,
}
use go_bank.Common.Int.{pos}
use go_bank.Common.Lists.{length, drop}
use go_bank.Db.World.{World}
use go_bank.Web.{
  Request, Response, HttpHandler, header_get, header_set, run_steps, status_of, received,
}
use go_bank.Logger.Entry.{debug, Line, Field, number, milliseconds}
use go_bank.Logger.Core.{Logger, Package, own_or_global, log_line}
use go_bank.Logger.Recorder.{ResponseRecorder, new_response_recorder, note_steps}
use go_bank.Logger.Recorder.Accuracy.{AllFinal, recorder-Accurate}
use go_bank.Logger.Http.{
  generate_request_id, correlate, scope, arrival_line, finish_fields, Served, call_next,
  serve_logged, http_middleware, is_skipped,
}
use go_bank.Logger.Http.Options.{HttpLogOptions, request_id_header, trace_id_header}
use go_bank.Logger.Http.Lines.{
  correlate_lem, inner_request, named_response, request_logger, serve_logged_lem, level_of,
  finish_lines_lem,
}
use go_bank.Web.Head.{is_head-run_steps, received_body, received_none}

abbrev number_field : String → ℕ → Field
number_field k n = record { key = k; value = number (pos n) }

-- What a request leaves that the middleware has let through to its handler: the handler has got the request with
-- a correlation id in its context, which the client gets back in its header; the client gets what the
-- handler has answered; and the last of the two lines has the status that the client gets, and the size of
-- the body that it gets; where the request is a HEAD, and the client gets no body, the size of what the
-- handler has written.
pub record Truthful (opts : HttpLogOptions) (next : HttpHandler) (r : Request) (response : Response)
    (w : World) (out : Served) : Type 0 where
  pub req_id : String
  pub not_empty : req_id ≢ ""
  pub kept :
      header_get r.header (request_id_header opts) ≢ ""
      → req_id ≡ header_get r.header (request_id_header opts)
  pub inner : Request
  pub same_request :
      (inner.method ≡ r.method)
      × (inner.path ≡ r.path)
      × (inner.header ≡ r.header)
      × (inner.body ≡ r.body)
  pub context : inner.values.request_id ≡ some req_id
  pub drawn : ℕ
  pub start : World
  pub only_draws : start ≡ record w { drawn = drawn }
  pub answer :
      out.response
      ≡ run_steps
          (next inner start).0
          (record response { header = header_set response.header (request_id_header opts) req_id })
  pub left : out.world ≡ (next inner start).1
  pub arrival : Line
  pub finish : Line
  pub two : out.lines ≡ arrival ∷ finish ∷ []
  pub arrived : arrival.level ≡ debug
  pub level : finish.level ≡ level_of opts r.path (status_of out.response.sent)
  pub before : List Field
  pub latency : Field
  pub after : List Field
  pub size : ℕ
  pub got : str_eq r.method "HEAD" ≡ false → size ≡ length (received out.response)
  pub dropped :
      str_eq r.method "HEAD" ≡ true
      → (received out.response ≡ []) × (size ≡ length out.response.body)
  pub told :
      finish.fields
      ≡ before
        ++ number_field "http.status" (status_of out.response.sent)
          ∷ latency
          ∷ number_field "http.bytes" size
          ∷ after

correlate_draws :
    (opts : HttpLogOptions) (r : Request) (w : World)
    → (d : ℕ) × ((correlate opts r w).1 ≡ record w { drawn = d })
unfolding correlate generate_request_id
correlate_draws opts r w =
    let id = header_get r.header (request_id_header opts) in
    elim (Bool-cases (str_eq id "")) [
      | inl empty ↦ (suc w.drawn, rw empty refl)
      | inr sent ↦ (w.drawn, rw sent refl)
    ]

scope_request_id :
    (r : Request) (req_id trace_id : String) (l : Logger)
    → (scope r req_id trace_id l).values.request_id ≡ some req_id
unfolding scope
scope_request_id r req_id trace_id l = elim (Bool-cases (str_eq trace_id "")) [
  | inl empty ↦ rw empty refl
  | inr sent ↦ rw sent refl
]

arrival_debug : (l : Logger) (r : Request) → (arrival_line l r).level ≡ debug
unfolding arrival_line log_line
arrival_debug l r = refl

module _ (opts : HttpLogOptions) (next : HttpHandler) (base : Logger) (r : Request)
    (response : Response) (w : World) (d : opts.decider_func ≡ none)
    (off : opts.log_request_body ≡ false) (unsent : response.sent ≡ none)
    (own_method : response.is_head ≡ str_eq r.method "HEAD") (empty : response.body ≡ [])
    (final : (r' : Request) (v : World) → AllFinal (next r' v).0) where
  abbrev inner' : Request
  inner' = inner_request opts base r w

  abbrev start' : World
  start' = (correlate opts r w).1

  abbrev plain : Response
  plain = run_steps (next inner' start').0 (named_response opts r response w)

  abbrev recorder : ResponseRecorder
  recorder =
      note_steps (next inner' start').0 (new_response_recorder (named_response opts r response w))

  abbrev elapsed : ℕ
  elapsed = (next inner' start').1.clock - w.clock

  abbrev told_fields : (status size : ℕ) → List Field
  unfolding finish_fields
  told_fields status size =
      (request_logger opts base r w).fields
      ++ finish_fields opts base.config.development inner'
          (record recorder { status_code = status; bytes_written = size }) elapsed

  serve_logged-Truthful : Truthful opts next r response w (serve_logged opts next base r response w)
  unfolding call_next finish_fields scope
  serve_logged-Truthful =
      let e = serve_logged_lem opts next base r response w off in
      let (same, code, size) =
        recorder-Accurate (next inner' start').0 (named_response opts r response w) unsent empty
          (final inner' start') in
      let answer : (serve_logged opts next base r response w).response ≡ plain =
        ap (λ o. o.response) e ∙ same in
      let head : (serve_logged opts next base r response w).response.is_head
          ≡ str_eq r.method "HEAD" =
        ap (λ v. v.is_head) answer
        ∙ is_head-run_steps (next inner' start').0 (named_response opts r response w)
        ∙ own_method in
      let status = code ∙ sym (ap (λ v. status_of v.sent) answer) in
      let bytes = size ∙ sym (ap (λ v. length v.body) answer) in
      let (drawn, only) = correlate_draws opts r w in
      let (nonempty, kept) = correlate_lem opts r w in
      record {
        req_id = (correlate opts r w).0;
        not_empty = nonempty;
        kept = λ h. ap (λ x. x.0) (kept h);
        inner = inner';
        same_request = (refl, refl, refl, refl);
        context =
            scope_request_id r (correlate opts r w).0 (header_get r.header (trace_id_header opts))
              (request_logger opts base r w);
        drawn = drawn;
        start = start';
        only_draws = only;
        answer = answer;
        left = ap (λ o. o.world) e;
        arrival = arrival_line (request_logger opts base r w) inner';
        finish = record {
          level = level_of opts r.path recorder.status_code;
          message = "HTTP finished";
          fields = told_fields recorder.status_code recorder.bytes_written;
        };
        two =
            ap (λ o. o.lines) e
            ∙ ap (λ ls. arrival_line (request_logger opts base r w) inner' ∷ ls)
                (finish_lines_lem opts (request_logger opts base r w) base.config.development inner'
                  recorder elapsed d);
        arrived = arrival_debug (request_logger opts base r w) inner';
        level = ap (level_of opts r.path) status;
        before = (request_logger opts base r w).fields;
        latency = record { key = "http.dur_ms"; value = milliseconds elapsed };
        after = drop 3 (finish_fields opts base.config.development inner' recorder elapsed);
        size = length (serve_logged opts next base r response w).response.body;
        got = λ h. ap length (sym (received_body _ (head ∙ h)));
        dropped = λ h. (received_none _ (head ∙ h), refl);
        told =
            ap (λ n. told_fields n recorder.bytes_written) status
            ∙ ap (told_fields (status_of (serve_logged opts next base r response w).response.sent))
                bytes;
      }

  -- A request that is not skipped, under a middleware with the default decider and without the capture of
  -- bodies: the handler gets it with a correlation id in its context, which is not empty, is the one that
  -- the request carries if it carries one, and stands in the header of the answer; the client gets what
  -- the handler answers, in the world that the handler leaves; and of the two lines of the log the first
  -- is for debugging and the last has the status that the client gets, the level of that status, and the
  -- size of the body that the client gets. Only in answer to a HEAD, where the client gets no body,
  -- that size is the one of what the handler has written. The writer is the one of the request, nothing
  -- has been sent on it, and the handler sends no informational status.
  pub http_middleware-Truthful :
      (p : Package)
      → is_skipped opts r.path ≡ false
      → own_or_global opts.logger p ≡ some base
      → (out : Served) × (http_middleware opts next p r response w ≡ some out)
        × Truthful opts next r response w out
  unfolding http_middleware
  http_middleware-Truthful p logged own =
      (serve_logged opts next base r response w, rw (logged, own) refl, serve_logged-Truthful)
