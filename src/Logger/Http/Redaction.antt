-- ===== src/Logger/Http/Redaction.antt =====
-- What the log shows of the headers of a request.
use go_bank.Common.{
  Bool, true, false, Option, none, some, List, [], ◌∷◌, ◌++◌, String, if◌then◌else◌, str_eq, ◌≡◌,
  refl, sym, ap, ◌∙◌, ◌⊎◌, inl, inr, Bool-cases, ℕ, eq_iff, ◌-◌,
}
use go_bank.Common.Text.Search.{to_lower}
use go_bank.Db.World.{World}
use go_bank.Web.{Request, Response, Step, HttpHandler, same_name, header_get, header_set}
use go_bank.Logger.Entry.{Line, string_field, debug}
use go_bank.Logger.Core.{Logger, Package, own_or_global, log_line, with_fields}
use go_bank.Logger.Values.{into_context}
use go_bank.Logger.Recorder.{ResponseRecorder, new_response_recorder, note_steps}
use go_bank.Logger.Http.{
  redact, finish_fields, finish_lines, arrival_line, scope, sanitise_path, scoped_logger, correlate,
  generate_request_id, serve_logged, call_next, Served, http_middleware, is_skipped,
}
use go_bank.Logger.Http.Lines.{level_of, inner_request, serve_logged_lem, finish_lines_lem}
use go_bank.Logger.Http.Client.{real_ip}
use go_bank.Logger.Http.Options.{HttpLogOptions, is_sensitive, request_id_header, trace_id_header}

-- Two lists of headers that differ only in the values of sensitive ones.
abbrev pub AgreeBut : HttpLogOptions → (hs hs' : List (String × List String)) → Type 0
AgreeBut opts [] [] = Unit {0}
AgreeBut opts ((k, v) ∷ hs) ((k', v') ∷ hs') =
    (k ≡ k') × ((is_sensitive opts k ≡ true) ⊎ (v ≡ v')) × AgreeBut opts hs hs'
AgreeBut opts _ _ = ⊥

redact_agree :
    (opts : HttpLogOptions) (hs hs' : List (String × List String))
    → AgreeBut opts hs hs'
    → redact opts hs ≡ redact opts hs'
unfolding redact
redact_agree opts [] [] h = refl
redact_agree opts [] (y ∷ ys) h = absurd h
redact_agree opts (x ∷ xs) [] h = absurd h
redact_agree opts ((k, v) ∷ hs) ((k', v') ∷ hs') (same, inl hidden, rest) =
    rw (← same, hidden, redact_agree opts hs hs' rest) refl
redact_agree opts ((k, v) ∷ hs) ((k', v') ∷ hs') (same, inr equal, rest) =
    rw (← same, equal, redact_agree opts hs hs' rest) refl

sensitive_same :
    (opts : HttpLogOptions) (k name : String)
    → same_name k name ≡ true
    → is_sensitive opts k ≡ is_sensitive opts name
unfolding is_sensitive
sensitive_same opts k name h = rw ((eq_iff (to_lower k) (to_lower name)).0 h) refl

header_get_agree :
    (opts : HttpLogOptions) (name : String)
    → is_sensitive opts name ≡ false
    → (hs hs' : List (String × List String)) → AgreeBut opts hs hs'
    → header_get hs name ≡ header_get hs' name
unfolding header_get
header_get_agree opts name open_name [] [] h = refl
header_get_agree opts name open_name [] (y ∷ ys) h = absurd h
header_get_agree opts name open_name (x ∷ xs) [] h = absurd h
header_get_agree opts name open_name ((k, v) ∷ hs) ((k', v') ∷ hs') (same, values, rest) =
    let later = header_get_agree opts name open_name hs hs' rest in
    elim (Bool-cases (same_name k name)) [
      | inl hit ↦ elim values [
        | inl hidden ↦ cc (sensitive_same opts k name hit)
        | inr equal ↦ rw (← same, hit, equal) refl
      ]
      | inr miss ↦ rw (← same, miss, later) refl
    ]

-- The headers that the log reads are not sensitive ones.
abbrev pub LogsOpenly : HttpLogOptions → Type 0
LogsOpenly opts =
    (is_sensitive opts (request_id_header opts) ≡ false)
    × (is_sensitive opts (trace_id_header opts) ≡ false)
    × (is_sensitive opts "CF-Connecting-IP" ≡ false)
    × (is_sensitive opts "X-Real-Ip" ≡ false)
    × (is_sensitive opts "X-Forwarded-For" ≡ false)
    × (is_sensitive opts "User-Agent" ≡ false)
    × (is_sensitive opts "Referer" ≡ false)

-- The lines of a request, empty where the middleware has panicked.
abbrev pub lines_left : Option Served → List Line
lines_left none = []
lines_left (some o) = o.lines

module _ (opts : HttpLogOptions) (openly : LogsOpenly opts) where
  real_ip_agree :
      (hs hs' : List (String × List String)) (r : Request)
      → AgreeBut opts hs hs'
      → real_ip (record r { header = hs }) ≡ real_ip (record r { header = hs' })
  unfolding real_ip
  real_ip_agree hs hs' r h =
      rw
        (
          header_get_agree opts "CF-Connecting-IP" openly.2 hs hs' h,
          header_get_agree opts "X-Real-Ip" openly.3 hs hs' h,
          header_get_agree opts "X-Forwarded-For" openly.4 hs hs' h,
        )
        refl

  finish_fields_agree :
      (development : Bool) (hs hs' : List (String × List String)) (r : Request)
      (rec : ResponseRecorder) (elapsed : ℕ)
      → AgreeBut opts hs hs'
      → finish_fields opts development (record r { header = hs }) rec elapsed
        ≡ finish_fields opts development (record r { header = hs' }) rec elapsed
  unfolding finish_fields
  finish_fields_agree development hs hs' r rec elapsed h =
      rw
        (
          real_ip_agree hs hs' r h,
          header_get_agree opts "User-Agent" openly.5 hs hs' h,
          header_get_agree opts "Referer" openly.6 hs hs' h,
          redact_agree opts hs hs' h,
        )
        refl

  module _ (d : opts.decider_func ≡ none) (base : Logger) (hs hs' : List (String × List String))
      (h : AgreeBut opts hs hs') (r : Request) (response : Response) (w : World) where
    -- The same request with other headers.
    abbrev with_header : List (String × List String) → Request
    with_header sent = record r { header = sent }

    abbrev id_of : List (String × List String) → String
    id_of sent = (correlate opts (with_header sent) w).0

    abbrev trace_of : List (String × List String) → String
    trace_of sent = header_get sent (trace_id_header opts)

    -- The two lines for a handler that leaves some steps and a world.
    abbrev lines_of :
        (sent : List (String × List String)) (id trace : String) (outcome : List Step × World)
        → List Line
    lines_of sent id trace (steps, w') =
        let l = scoped_logger base id trace r in
        let scoped = scope (with_header sent) id trace l in
        let named = record response {
          header = header_set response.header (request_id_header opts) id;
        } in
        arrival_line l scoped
        ∷ finish_lines opts l base.config.development scoped
            (note_steps steps (new_response_recorder named)) (w'.clock - w.clock)

    lines_agree :
        (id trace : String) (outcome : List Step × World)
        → lines_of hs id trace outcome ≡ lines_of hs' id trace outcome
    unfolding arrival_line log_line scope with_fields sanitise_path into_context
    lines_agree id trace (steps, w') =
        let l = scoped_logger base id trace r in
        let dev = base.config.development in
        let named = record response {
          header = header_set response.header (request_id_header opts) id;
        } in
        let rec = note_steps steps (new_response_recorder named) in
        let elapsed = w'.clock - w.clock in
        let scoped = scope r id trace l in
        let first : arrival_line l (scope (with_header hs) id trace l)
            ≡ arrival_line l (scope (with_header hs') id trace l) =
          ap
            (λ ip. log_line debug l "HTTP started" (
              string_field "http.proto" r.proto
              ∷ string_field "http.ip" ip
              ∷ string_field "http.host" r.host
              ∷ []))
            (real_ip_agree hs hs' scoped h) in
        let last : finish_lines opts l dev (scope (with_header hs) id trace l) rec elapsed
            ≡ finish_lines opts l dev (scope (with_header hs') id trace l) rec elapsed =
          finish_lines_lem opts l dev (scope (with_header hs) id trace l) rec elapsed d
          ∙ ap
              (λ fs.
                record {
                  level = level_of opts r.path rec.status_code;
                  message = "HTTP finished";
                  fields = l.fields ++ fs;
                }
                ∷ [])
              (finish_fields_agree dev hs hs' scoped rec elapsed h)
          ∙ sym (finish_lines_lem opts l dev (scope (with_header hs') id trace l) rec elapsed d) in
        ap (λ x. x ∷ finish_lines opts l dev (scope (with_header hs) id trace l) rec elapsed) first
        ∙ ap (λ ls. arrival_line l (scope (with_header hs') id trace l) ∷ ls) last

    correlate_agree : correlate opts (with_header hs) w ≡ correlate opts (with_header hs') w
    unfolding correlate
    correlate_agree =
        ap (λ id. if str_eq id "" then generate_request_id w else (id, w))
          (header_get_agree opts (request_id_header opts) openly.0 hs hs' h)

    abbrev outcome_of : HttpHandler → List (String × List String) → List Step × World
    outcome_of next sent =
        next (inner_request opts base (with_header sent) w) (correlate opts (with_header sent) w).1

    serve_logged_agree :
        (next : HttpHandler)
        → opts.log_request_body ≡ false
        → outcome_of next hs ≡ outcome_of next hs'
        → (serve_logged opts next base (with_header hs) response w).lines
          ≡ (serve_logged opts next base (with_header hs') response w).lines
    unfolding call_next scoped_logger
    serve_logged_agree next off alike =
        ap (λ o. o.lines) (serve_logged_lem opts next base (with_header hs) response w off)
        ∙ lines_agree (id_of hs) (trace_of hs) (outcome_of next hs)
        ∙ ap (λ id. lines_of hs' id (trace_of hs) (outcome_of next hs))
            (ap (λ x. x.0) correlate_agree)
        ∙ ap (λ t. lines_of hs' (id_of hs') t (outcome_of next hs))
            (header_get_agree opts (trace_id_header opts) openly.1 hs hs' h)
        ∙ ap (lines_of hs' (id_of hs') (trace_of hs')) alike
        ∙ sym (ap (λ o. o.lines) (serve_logged_lem opts next base (with_header hs') response w off))

    -- The log does not depend on the values of sensitive headers, in any environment: two requests that
    -- differ only in those, and that the handler answers alike, leave the same lines. The decider is the
    -- default one, bodies are not captured, and the headers that the log reads (the correlation ids, those
    -- of the client's address, User-Agent and Referer) are not themselves sensitive.
    pub http_middleware_hides :
        (p : Package) (next : HttpHandler)
        → own_or_global opts.logger p ≡ some base
        → opts.log_request_body ≡ false
        → next
            (inner_request opts base (record r { header = hs }) w)
            (correlate opts (record r { header = hs }) w).1
          ≡ next
              (inner_request opts base (record r { header = hs' }) w)
              (correlate opts (record r { header = hs' }) w).1
        → lines_left (http_middleware opts next p (record r { header = hs }) response w)
          ≡ lines_left (http_middleware opts next p (record r { header = hs' }) response w)
    unfolding http_middleware
    http_middleware_hides p next own off alike = elim (Bool-cases (is_skipped opts r.path)) [
      | inl skipped ↦ rw skipped refl
      | inr logged ↦ rw (logged, own) (serve_logged_agree next off alike)
    ]
