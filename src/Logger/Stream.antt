-- ===== src/Logger/Stream.antt =====
-- logger/grpc.go: the stream interceptor. A handler of a stream receives and sends messages in some
-- order, each of which fails or not. The counts are int64 in the source, which no stream reaches.
use go_bank.Common.{
  ℕ, ◌+◌, ◌-◌, Bool, Option, none, some, List, [], ◌∷◌, ◌++◌, String, if◌then◌else◌,
}
use go_bank.Common.Int.{pos}
use go_bank.Db.World.{World}
use go_bank.Gapi.Status.{Status}
use go_bank.Gapi.Server.{Context}
use go_bank.Logger.Entry.{Field, Line, number, flag}
use go_bank.Logger.Core.{Package, own_or_global}
use go_bank.Logger.Grpc.{
  GrpcLogOptions, GrpcFields, is_skipped, extract_grpc_fields, enrich_context, build_finish_fields,
  finish_line,
}

-- A call of SendMsg or RecvMsg on the stream of gRPC, and whether it returned no error.
pub data Message : Type 0 where
  send receive : Bool → Message

pub record WrappedStream : Type 0 where
  pub msgs_sent : ℕ
  pub msgs_recv : ℕ

unfoldable pub send_msg : Bool → WrappedStream → WrappedStream
send_msg sent s = if sent then record s { msgs_sent = s.msgs_sent + 1 } else s

unfoldable pub recv_msg : Bool → WrappedStream → WrappedStream
recv_msg received s = if received then record s { msgs_recv = s.msgs_recv + 1 } else s

-- The calls that a handler makes on the wrapped stream.
unfoldable pub run_messages : WrappedStream → List Message → WrappedStream
unfolding send_msg recv_msg
run_messages s [] = s
run_messages s (send b ∷ ms) = run_messages (send_msg b s) ms
run_messages s (receive b ∷ ms) = run_messages (recv_msg b s) ms

-- What a handler of a stream does: its messages, its error and the world that it leaves.
pub record StreamRun : Type 0 where
  pub messages : List Message
  pub failure : Option Status
  pub world : World

pub record LoggedStream : Type 0 where
  pub run : StreamRun
  pub lines : List Line

abbrev stream_fields : WrappedStream → (is_client_stream is_server_stream : Bool) → List Field
stream_fields s is_client_stream is_server_stream =
    record { key = "grpc.msgs_sent"; value = number (pos s.msgs_sent) }
    ∷ record { key = "grpc.msgs_recv"; value = number (pos s.msgs_recv) }
    ∷ record { key = "grpc.client_stream"; value = flag is_client_stream }
    ∷ record { key = "grpc.server_stream"; value = flag is_server_stream }
    ∷ []

module _ (p : Package) (opts : GrpcLogOptions) (message : Status → String)
    (is_client_stream is_server_stream : Bool) where
  unfoldable pub after_stream :
      (full_method : String) → GrpcFields → Context → (start : ℕ) → StreamRun → Option LoggedStream
  unfolding build_finish_fields run_messages finish_line
  after_stream full_method f ctx start run =
      let wrapped = run_messages (record { msgs_sent = 0; msgs_recv = 0 }) run.messages in
      let fields =
        build_finish_fields message f (run.world.clock - start) run.world.clock run.failure
        ++ stream_fields wrapped is_client_stream is_server_stream in
      elim (finish_line p opts full_method "gRPC stream" ctx.values fields run.failure) [
        | none ↦ none
        | some lines ↦ some (record { run = run; lines = lines })
      ]

  unfoldable pub stream_server_interceptor :
      (full_method : String) → Context → (Context → World → StreamRun) → World → Option LoggedStream
  unfolding after_stream extract_grpc_fields enrich_context
  stream_server_interceptor full_method ctx handler w =
      if is_skipped opts full_method
      then some (record { run = handler ctx w; lines = [] })
      else elim (own_or_global opts.logger p) [
        | none ↦ none
        | some base ↦
            let f = extract_grpc_fields ctx full_method opts in
            let inner = enrich_context ctx f base in
            after_stream full_method f inner w.clock (handler inner w)
      ]
