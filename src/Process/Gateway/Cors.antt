-- ===== src/Process/Gateway/Cors.antt =====
-- What a browser is told by an answer of the gateway.
use go_bank.Common.{
  ◌≡◌, ◌↔◌, refl, ap, sym, ◌∙◌, Bool, true, false, ◌||◌, inl, inr, none, some, List, [], ◌∷◌, ◌++◌,
  String, str_eq, if◌then◌else◌, arith, Bool-cases, ℕ,
}
use mathlib.Core.Path.{subst}
use go_bank.Common.Text.Search.{has_prefix, to_lower}
use go_bank.Db.World.{World}
use go_bank.Web.{
  Request, Response, Step, HttpHandler, sets, sends, header_get, header_set, header_lookup, fresh,
  run_step, run_steps, status_of, write_header,
}
use go_bank.Web.Headers.{final_header, Says, AllLeave, sets-Says, run_steps-Says, run_steps-append}
use go_bank.Gapi.Swagger.{SwaggerPage, swagger_handler}
use go_bank.Logger.Core.{Logger, Package}
use go_bank.Logger.Recorder.Accuracy.{AllFinal}
use go_bank.Logger.Http.{Served, is_skipped}
use go_bank.Logger.Http.Options.{request_id_header}
use go_bank.Logger.Http.Truth.{Truthful, http_middleware-Truthful}
use go_bank.Process.Gateway.Origins.{Trusted, is_allowed-iff_Trusted}
use go_bank.Process.Gateway.{
  Upstream, is_allowed, cors_headers, cors_middleware, mux, http_opts, serve_http,
}

abbrev allow_origin : String
allow_origin = "Access-Control-Allow-Origin"

abbrev allow_credentials : String
allow_credentials = "Access-Control-Allow-Credentials"

-- The steps send no informational status and leave the two headers alone.
abbrev pub QuietSteps : List Step → Type 0
QuietSteps ss = AllFinal ss × AllLeave allow_origin ss × AllLeave allow_credentials ss

abbrev pub Quiet : HttpHandler → Type 0
Quiet next = (r : Request) (w : World) → QuietSteps (next r w).0

swagger_handler-Quiet : (page : SwaggerPage) → Quiet (swagger_handler page)
unfolding swagger_handler to_lower
swagger_handler-Quiet page r w = elim (Bool-cases (str_eq r.path "/swagger/doc.json")) [
  | inl spec ↦
      rw spec ((refl, (refl, (refl, tt))), (refl, (refl, (refl, tt))), (refl, (refl, (refl, tt))))
  | inr ui ↦
      rw ui ((refl, (refl, (refl, tt))), (refl, (refl, (refl, tt))), (refl, (refl, (refl, tt))))
]

mux-Quiet : (up : Upstream) → Quiet up.grpc_mux → Quiet up.redirect → Quiet (mux up)
unfolding mux
mux-Quiet up grpc redirect r w = elim (Bool-cases (up.redirects r)) [
  | inl moved ↦ rw moved (redirect r w)
  | inr clean ↦ elim (Bool-cases (str_eq r.path "/healthz" || str_eq r.path "/readyz")) [
    | inl health ↦ rw (clean, health) ((refl, tt), (refl, tt), (refl, tt))
    | inr other ↦ elim (Bool-cases (has_prefix r.path "/swagger/")) [
      | inl swagger ↦ rw (clean, other, swagger) (swagger_handler-Quiet up.swagger r w)
      | inr rest ↦ rw (clean, other, rest) (grpc r w)
    ]
  ]
]

-- The headers of corsMiddleware, in a response that has sent nothing.
cors_headers-Says :
    (origin : String) (r : Response)
    → r.sent ≡ none
    → Says allow_origin (some origin) (run_steps (cors_headers origin) r)
      × Says allow_credentials (some "true") (run_steps (cors_headers origin) r)
unfolding run_steps run_step to_lower
cors_headers-Says origin r unsent =
    let first = run_step (sets allow_origin origin) r in
    let second =
      run_step (sets "Access-Control-Allow-Methods" "GET, POST, PUT, PATCH, DELETE, OPTIONS")
        first in
    let third =
      run_step (sets "Access-Control-Allow-Headers" "Authorization, Content-Type, X-Request-Id")
        second in
    let fourth = run_step (sets allow_credentials "true") third in
    let last = sets "Access-Control-Max-Age" "86400" ∷ sets "Vary" "Origin" ∷ [] in
    (
      run_steps-Says
          (sets "Access-Control-Allow-Methods" "GET, POST, PUT, PATCH, DELETE, OPTIONS"
            ∷ sets "Access-Control-Allow-Headers" "Authorization, Content-Type, X-Request-Id"
            ∷ sets allow_credentials "true"
            ∷ last)
          first allow_origin (some origin) (refl, (refl, (refl, (refl, (refl, tt)))))
          (sets-Says allow_origin origin r unsent),
      run_steps-Says last fourth allow_credentials (some "true") (refl, (refl, tt))
          (sets-Says allow_credentials "true" third unsent),
    )

-- What the headers tell about an origin.
abbrev pub Tells : (allowed : Bool) → (origin : String) → Response → Type 0
Tells allowed origin r =
    Says allow_origin (if allowed then some origin else none) r
    × Says allow_credentials (if allowed then some "true" else none) r

abbrev pub allow_steps : (allowed : Bool) → (origin : String) → List Step
allow_steps allowed origin = if allowed then cors_headers origin else []

allow_steps-Tells :
    (allowed : Bool) (origin : String) (r : Response)
    → r.sent ≡ none
    → header_lookup r.header allow_origin ≡ none
    → header_lookup r.header allow_credentials ≡ none
    → Tells allowed origin (run_steps (allow_steps allowed origin) r)
unfolding run_steps final_header
allow_steps-Tells true origin r unsent o c = cors_headers-Says origin r unsent
allow_steps-Tells false origin r unsent o c = ((o, rw unsent o), (c, rw unsent c))

then_steps-Tells :
    (allowed : Bool) (origin : String) (steps : List Step) (r : Response)
    → QuietSteps steps
    → r.sent ≡ none
    → header_lookup r.header allow_origin ≡ none
    → header_lookup r.header allow_credentials ≡ none
    → Tells allowed origin (run_steps (allow_steps allowed origin ++ steps) r)
then_steps-Tells allowed origin steps r (final, one, two) unsent o c =
    let (first, second) = allow_steps-Tells allowed origin r unsent o c in
    let after = run_steps (allow_steps allowed origin) r in
    rw (run_steps-append (allow_steps allowed origin) steps r) (
      run_steps-Says steps after allow_origin _ one first,
      run_steps-Says steps after allow_credentials _ two second,
    )

final-append : (xs ys : List Step) → AllFinal xs → AllFinal ys → AllFinal (xs ++ ys)
final-append [] ys h k = k
final-append (x ∷ xs) ys (first, others) k = (first, final-append xs ys others k)

allow_final : (allowed : Bool) (origin : String) → AllFinal (allow_steps allowed origin)
allow_final true origin = (refl, (refl, (refl, (refl, (refl, (refl, tt))))))
allow_final false origin = tt

cors_steps :
    (next : HttpHandler) (r : Request) (w : World)
    → Quiet next
    → let origin = header_get r.header "Origin" in
      (ss : List Step) × ((cors_middleware next r w).0
        ≡ allow_steps (is_allowed origin) origin ++ ss)
      × QuietSteps ss
      × (str_eq r.method "OPTIONS" ≡ true
          → (ss ≡ sends 200 ∷ []) × ((cors_middleware next r w).1 ≡ w))
unfolding cors_middleware
cors_steps next r w quiet = elim (Bool-cases (str_eq r.method "OPTIONS")) [
  | inl options ↦ (
    sends 200 ∷ [],
    rw options refl,
    ((refl, tt), (refl, tt), (refl, tt)),
    λ _. (refl, rw options refl),
  )
  | inr other ↦ ((next r w).0, rw other refl, quiet r w, λ h. cc)
]

cors-AllFinal :
    (next : HttpHandler)
    → Quiet next
    → (r : Request) (w : World) → AllFinal (cors_middleware next r w).0
cors-AllFinal next quiet r w =
    let (ss, e, (final, _, _), _) = cors_steps next r w quiet in
    let origin = header_get r.header "Origin" in
    rw e (final-append (allow_steps (is_allowed origin) origin) ss (allow_final _ origin) final)

-- A preflight is answered with 200 and no body.
preflight_answer :
    (allowed : Bool) (origin : String) (r : Response)
    → r.sent ≡ none
    → r.body ≡ []
    → let out = run_steps (allow_steps allowed origin ++ sends 200 ∷ []) r in
      (status_of out.sent ≡ 200) × (out.body ≡ [])
unfolding run_steps run_step write_header status_of
preflight_answer true origin r unsent empty = ground arith
preflight_answer false origin r unsent empty = ground arith

-- The header with the correlation id, in a response that is new.
named_clean :
    (l : Logger) (id : String)
    → let header = header_set [] (request_id_header (http_opts l)) id in
      (header_lookup header allow_origin ≡ none) × (header_lookup header allow_credentials ≡ none)
unfolding http_opts request_id_header header_set header_lookup to_lower
named_clean l id = (refl, refl)

module _ (p : Package) (l : Logger) (up : Upstream) (r : Request) (w : World)
    (grpc : Quiet up.grpc_mux) (redirect : Quiet up.redirect) where
  abbrev origin_of : Request → String
  origin_of request = header_get request.header "Origin"

  told_by :
      (out : Served)
      → Truthful (http_opts l) (cors_middleware (mux up)) r (fresh r) w out
      → Tells (is_allowed (origin_of r)) (origin_of r) out.response
        × (str_eq r.method "OPTIONS" ≡ true
            → (status_of out.response.sent ≡ 200)
              × (out.response.body ≡ [])
              × (d : ℕ) × (out.world ≡ record w { drawn = d }))
  told_by out t =
      let o = origin_of t.inner in
      let name = request_id_header (http_opts l) in
      let named : Response = record (fresh r) { header = header_set [] name t.req_id } in
      let (ss, e, quiet, preflight) =
        cors_steps (mux up) t.inner t.start (mux-Quiet up grpc redirect) in
      let answer : out.response ≡ run_steps (allow_steps (is_allowed o) o ++ ss) named =
        t.answer ∙ ap (λ steps. run_steps steps named) e in
      let (no_origin, no_credentials) = named_clean l t.req_id in
      let told : Tells (is_allowed o) o out.response =
        subst (Tells (is_allowed o) o) (sym answer)
          (then_steps-Tells (is_allowed o) o ss named quiet refl no_origin no_credentials) in
      (
        subst (λ q. Tells (is_allowed q) q out.response)
            (ap (λ h. header_get h "Origin") t.same_request.2) told,
        λ options.
            let (one, stays) =
              preflight (ap (λ m. str_eq m "OPTIONS") t.same_request.0 ∙ options) in
            let answered =
              answer ∙ ap (λ s. run_steps (allow_steps (is_allowed o) o ++ s) named) one in
            let (status, body) = preflight_answer (is_allowed o) o named refl refl in
            (
              ap (λ a. status_of a.sent) answered ∙ status,
              ap (λ a. a.body) answered ∙ body,
              t.drawn,
              t.left ∙ stays ∙ t.only_draws,
            ),
      )

  -- The browser is told by an answer of the gateway, whatever is behind it, that an origin may read it, and
  -- with credentials, exactly when the origin of the request is an allowed one, which is one of the two
  -- local front ends or ends in ".vercel.app"; and a preflight (OPTIONS)
  -- does not reach the handlers: it is answered with 200 and no body, and only a random number for its
  -- correlation id may be used. The request is not on the skip list of the log, and the handlers set
  -- neither header and send no informational status.
  pub serve_http-Tells :
      is_skipped (http_opts l) r.path ≡ false
      → let origin = header_get r.header "Origin" in
        (out : Served) × (serve_http p l up r w ≡ some out)
        × Tells (is_allowed origin) origin out.response
        × (is_allowed origin ≡ true ↔ Trusted origin)
        × (str_eq r.method "OPTIONS" ≡ true
            → (status_of out.response.sent ≡ 200)
              × (out.response.body ≡ [])
              × (d : ℕ) × (out.world ≡ record w { drawn = d }))
  unfolding serve_http http_opts
  serve_http-Tells logged =
      let quiet = mux-Quiet up grpc redirect in
      let next = cors_middleware (mux up) in
      let (out, ran, t) =
        http_middleware-Truthful (http_opts l) next l r (fresh r) w refl refl refl refl refl
          (cors-AllFinal (mux up) quiet) p logged refl in
      let (tells, preflight) = told_by out t in
      (out, ran, tells, is_allowed-iff_Trusted (header_get r.header "Origin"), preflight)
