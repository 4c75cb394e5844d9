-- ===== src/Logger/Values.antt =====
-- logger/logger.go: the values that the package keeps in a context. A context is a value: each function
-- returns the one that it has extended.
use go_bank.Common.{Option, none, some, [], ◌∷◌, String}
use go_bank.Token.Payload.{Payload}
use go_bank.Logger.Entry.{string_field}
use go_bank.Logger.Core.{Logger, Package, own_or_global, with_fields}

-- What a context holds under the package's keys: loggerKey, requestIDKey, traceIDKey, spanIDKey, userKey, and
-- the authPayloadContextKey of logger/grpc.go, whose type is this package's own.
pub record Values : Type 0 where
  pub logger : Option Logger
  pub request_id : Option String
  pub trace_id : Option String
  pub span_id : Option String
  pub user : Option String
  pub auth_payload : Option Payload

-- A context that nothing has been put into.
abbrev pub background : Values
background = record {
  logger = none;
  request_id = none;
  trace_id = none;
  span_id = none;
  user = none;
  auth_payload = none;
}

-- The logger of the context, or the global one; none is the panic of G.
unfoldable pub from_context : Package → Values → Option Logger
from_context p ctx = own_or_global ctx.logger p

unfoldable pub into_context : Values → Logger → Values
into_context ctx l = record ctx { logger = some l }

unfoldable pub with_request_id : Package → Values → String → Option Values
unfolding from_context into_context with_fields
with_request_id p ctx req_id = elim (from_context p ctx) [
  | none ↦ none
  | some l ↦ some (
      into_context (record ctx { request_id = some req_id })
        (with_fields l (string_field "request_id" req_id ∷ [])))
]

unfoldable pub with_trace_context : Package → Values → (trace_id span_id : String) → Option Values
unfolding from_context into_context with_fields
with_trace_context p ctx trace_id span_id = elim (from_context p ctx) [
  | none ↦ none
  | some l ↦ some (
      into_context (record ctx { trace_id = some trace_id; span_id = some span_id })
        (with_fields l (string_field "trace_id" trace_id ∷ string_field "span_id" span_id ∷ [])))
]

unfoldable pub with_user : Package → Values → (username : String) → Option Values
unfolding from_context into_context with_fields
with_user p ctx username = elim (from_context p ctx) [
  | none ↦ none
  | some l ↦ some (
      into_context (record ctx { user = some username })
        (with_fields l (string_field "user" username ∷ [])))
]

abbrev or_empty : Option String → String
or_empty none = ""
or_empty (some v) = v

unfoldable pub request_id_from_context : Values → String
request_id_from_context ctx = or_empty ctx.request_id
