-- ===== src/Logger/Grpc/Transparent.antt =====
-- The interceptors do not change what a call does, and write one line for it.
use Prim.Native.String
use go_bank.Common.{
  ℕ, true, Option-cases, false, Option, some, List, [], ◌∷◌, ◌++◌, String, if◌then◌else◌, ◌≡◌, refl,
  ap, ◌∙◌, arith, ◌⊎◌, inl, inr, Bool-cases,
}
use mathlib.Core.Path.{subst₂}
use go_bank.Common.Text.Search.{before_last, after_last}
use go_bank.Common.Text.Search.Names.{
  has_no_slash, is_name, is_name-no_slash, before_last-cut, after_last-cut, slash_grouped,
}
use go_bank.Db.World.{World, Result}
use go_bank.Gapi.Status.{Status, Rpc}
use go_bank.Gapi.Server.{Context}
use go_bank.Logger.Entry.{Level, debug, info, warn, error, Field, Line, string_field}
use go_bank.Logger.Core.{
  Logger, Package, own_or_global, with_fields, with_base, log_line, log_at_level,
}
use go_bank.Logger.Values.{Values, from_context, into_context}
use go_bank.Logger.Grpc.Codes.{error_of, status_code, code_name}
use go_bank.Logger.Grpc.{
  GrpcLogOptions, GrpcFields, Views, Logged, is_skipped, decide, extract_grpc_fields, without_slash,
  dir, enrich_context, build_finish_fields, call_fields, finish_line, with_lines, after_handler,
  unary_server_interceptor,
}

-- A context that differs in the logger's own values only.
abbrev pub SameCall : (ctx inner : Context) → Type 0
SameCall ctx inner =
    (inner.auth_payload ≡ ctx.auth_payload)
    × (inner.metadata ≡ ctx.metadata)
    × (inner.peer ≡ ctx.peer)
    × (inner.deadline ≡ ctx.deadline)

-- The level that a line gets: levels that logAtLevel does not know become Info.
abbrev pub written_level : Level → Level
written_level debug = debug
written_level warn = warn
written_level error = error
written_level _ = info

log_at_level_lem :
    (l : Logger) (level : Level) (message : String) (fields : List Field)
    → log_at_level l level message fields
      ≡ record { level = written_level level; message = message; fields = l.fields ++ fields }
unfolding log_at_level log_line with_base
log_at_level_lem l level message fields = ground arith

finish_line_lem :
    (p : Package) (opts : GrpcLogOptions) (full_method message : String) (values : Values)
    (fields : List Field) (e : Option Status) (l : Logger)
    → from_context p values ≡ some l
    → let decision = decide opts.decider_func full_method e in
      finish_line p opts full_method message values fields e ≡ (
        if decision.1
        then some (
            record {
              level = written_level decision.0;
              message = message;
              fields = l.fields ++ fields;
            }
            ∷ [])
        else some [])
unfolding finish_line
finish_line_lem p opts full_method message values fields e l h =
    rw (h, log_at_level_lem l (decide opts.decider_func full_method e).0 message fields) refl

-- The fields that the interceptor gives to the logger of a call first: its service and its method.
abbrev pub Named : Logger → (service method : String) → List Field → Type 0
Named base service method context =
    (more : List Field) × (context
      ≡ base.fields ++ (string_field "grpc.svc" service ∷ string_field "grpc.method" method ∷ more))

-- The line of a finished call: nothing where the decider suppresses it, else one line with the decider's level,
-- the fields of the logger and those of the call, the code of its status first.
pub data Written (opts : GrpcLogOptions) (full_method : String) (context : List Field)
    (e : Option Status) (lines : List Line) : Type 0 where
  suppressed :
      (decide opts.decider_func full_method e).1 ≡ false
      → lines ≡ []
      → Written opts full_method context e lines
  told :
      (more : List Field)
      → (decide opts.decider_func full_method e).1 ≡ true
      → lines
        ≡ record {
          level = written_level (decide opts.decider_func full_method e).0;
          message = "gRPC";
          fields = context ++ (string_field "grpc.code" (code_name (status_code e)) ∷ more);
        }
          ∷ []
      → Written opts full_method context e lines

-- The full method of a call: its service and its method.
abbrev pub path_of : (service method : String) → String
path_of service method = String.◌++◌ "/" (String.◌++◌ service (String.◌++◌ "/" method))

names_of :
    (ctx : Context) (full_method : String) (opts : GrpcLogOptions)
    → let f = extract_grpc_fields ctx full_method opts in
      (f.service ≡ without_slash (dir (before_last full_method b'/')))
      × (f.method ≡ after_last full_method b'/')
unfolding extract_grpc_fields
names_of ctx full_method opts = elim (Option-cases ctx.metadata) [
  | inl none_sent ↦ (rw none_sent refl, rw none_sent refl)
  | inr (md, sent) ↦ (rw sent refl, rw sent refl)
]

extract_names :
    (ctx : Context) (opts : GrpcLogOptions) (service method : String)
    → has_no_slash method ≡ true
    → let f = extract_grpc_fields ctx (path_of service method) opts in
      (f.service ≡ service) × (f.method ≡ method)
extract_names ctx opts service method free =
    let (svc, name) = names_of ctx (path_of service method) opts in
    let rest = String.◌++◌ service (String.◌++◌ "/" method) in
    let grouped = slash_grouped service (String.◌++◌ "/" method) in
    (
      svc
          ∙ ap (λ x. without_slash (dir (before_last x b'/'))) grouped
          ∙ ap (λ o. without_slash (dir o)) (before_last-cut (String.◌∷◌ "/" service) method free),
      name
          ∙ ap (λ x. after_last x b'/') grouped
          ∙ after_last-cut (String.◌∷◌ "/" service) method free,
    )

module _ {A : Type 0} (p : Package) (opts : GrpcLogOptions) (views : Views A) where
  after_handler_lem :
      (full_method : String) (f : GrpcFields) (ctx : Context) (start : ℕ) (r : Result Status A)
      (w : World) (l : Logger)
      → from_context p ctx.values ≡ some l
      → (out : Logged A) × (after_handler p opts views full_method f ctx start r w ≡ some out)
        × (out.result ≡ r)
        × (out.world ≡ w)
        × Written opts full_method l.fields (error_of r) out.lines
  unfolding after_handler call_fields build_finish_fields
  after_handler_lem full_method f ctx start r w l h =
      let fields = call_fields p opts views f ctx start w.clock r in
      let written : Line = record {
        level = written_level (decide opts.decider_func full_method (error_of r)).0;
        message = "gRPC";
        fields = l.fields ++ fields;
      } in
      let line = finish_line_lem p opts full_method "gRPC" ctx.values fields (error_of r) l h in
      elim (Bool-cases (decide opts.decider_func full_method (error_of r)).1) [
        | inl logged ↦ (
          record { result = r; world = w; lines = written ∷ [] },
          ap (with_lines r w) (line ∙ ap (λ b. if b then some (written ∷ []) else some []) logged),
          refl,
          refl,
          told _ logged refl,
        )
        | inr silent ↦ (
          record { result = r; world = w; lines = [] },
          ap (with_lines r w) (line ∙ ap (λ b. if b then some (written ∷ []) else some []) silent),
          refl,
          refl,
          suppressed silent refl,
        )
      ]

  enriched :
      (ctx : Context) (f : GrpcFields) (base : Logger)
      → SameCall ctx (enrich_context ctx f base)
        × (l : Logger) × (from_context p (enrich_context ctx f base).values ≡ some l)
        × Named base f.service f.method l.fields
  unfolding enrich_context into_context from_context with_fields
  enriched ctx f base = ((refl, refl, refl, refl), _, refl, (_, refl))

  pub unary_server_interceptor_lem :
      (full_method : String) (ctx : Context) (handler : Context → Rpc A) (w : World) (base : Logger)
      → own_or_global opts.logger p ≡ some base
      → let f = extract_grpc_fields ctx full_method opts in
        (inner : Context) × (out : Logged A) × (unary_server_interceptor p opts views full_method
            ctx handler w
          ≡ some out)
        × SameCall ctx inner
        × (out.result ≡ (handler inner w).0)
        × (out.world ≡ (handler inner w).1)
        × ((is_skipped opts full_method ≡ true) × (out.lines ≡ [])
            ⊎ (is_skipped opts full_method ≡ false)
              × (context : List Field) × Named base f.service f.method context
              × Written opts full_method context (error_of out.result) out.lines)
  unfolding unary_server_interceptor
  unary_server_interceptor_lem full_method ctx handler w base own =
      elim (Bool-cases (is_skipped opts full_method)) [
        | inl skipped ↦ (
          ctx,
          record { result = (handler ctx w).0; world = (handler ctx w).1; lines = [] },
          rw skipped refl,
          (refl, refl, refl, refl),
          refl,
          refl,
          inl (skipped, refl),
        )
        | inr logged ↦
            let f = extract_grpc_fields ctx full_method opts in
            let inner = enrich_context ctx f base in
            let (same, l, found, named) = enriched ctx f base in
            let (out, ran, result, world, written) =
              after_handler_lem full_method f inner w.clock (handler inner w).0 (handler inner w).1
                l found in
            (
              inner,
              out,
              rw (logged, own) ran,
              same,
              result,
              world,
              inr (logged, l.fields, named, rw (ap error_of result) written),
            )
      ]

  -- The unary interceptor is transparent. Of a call with the full method "/service/method", where neither name is
  -- empty, ".", ".." or has a slash, with a logger at hand, and whatever the options and the handler are,
  -- the result and the world that it leaves are those that the handler gives in a context which differs
  -- from the call's in the logger's values only; a method on the skip list writes no line; for every
  -- other call there is none where the decider suppresses it, and else exactly one, at the decider's
  -- level, with the fields of the logger, then that service and that method, and then the code of the
  -- result.
  pub unary_server_interceptor-Written :
      (service method : String) (ctx : Context) (handler : Context → Rpc A) (w : World)
      (base : Logger)
      → is_name service ≡ true
      → is_name method ≡ true
      → own_or_global opts.logger p ≡ some base
      → let full_method = path_of service method in
        (inner : Context) × (out : Logged A) × (unary_server_interceptor p opts views full_method
            ctx handler w
          ≡ some out)
        × SameCall ctx inner
        × (out.result ≡ (handler inner w).0)
        × (out.world ≡ (handler inner w).1)
        × ((is_skipped opts full_method ≡ true) × (out.lines ≡ [])
            ⊎ (is_skipped opts full_method ≡ false)
              × (context : List Field) × Named base service method context
              × Written opts full_method context (error_of out.result) out.lines)
  unary_server_interceptor-Written service method ctx handler w base s m own =
      let (svc, name) = extract_names ctx opts service method (is_name-no_slash method m) in
      let (inner, out, ran, same, result, world, lines) =
        unary_server_interceptor_lem (path_of service method) ctx handler w base own in
      (
        inner,
        out,
        ran,
        same,
        result,
        world,
        elim lines [
          | inl skipped ↦ inl skipped
          | inr (logged, context, named, written) ↦
              inr (logged, context, subst₂ (λ a b. Named base a b context) svc name named, written)
        ],
      )
