-- ===== src/Lib.antt =====
-- The verification library of GoBank, a bank with a gRPC server over PostgreSQL.
--
-- The program. main.go runs a gRPC server and a gateway that translates HTTP to it. A request to the
-- gateway meets the middleware of the log (logger/http.go) and CORS (main.go); a call meets the
-- interceptor of the log (logger/grpc.go) and that of the authentication (gapi/middleware.go), which
-- verifies its token (token/) and puts the payload into the context. A handler (gapi/rpc_*.go) validates the request (val/),
-- checks who calls, converts amounts between float64 and cents (util/money.go), and runs statements
-- (db/sqlc/*.sql.go) or a transaction (db/sqlc/store.go, db/sqlc/tx_*.go) on the database. CreateUser
-- enqueues a task (worker/) inside its transaction, whose processor stores a code and mails it (mail/).
--
-- The same operations exist as a REST server over Gin (api/), which main.go keeps and does not start.
--
-- The files.
--   Common             Booleans, options, lists of rows, and integers over the native ℕ
--   Db.Models          the rows (db/sqlc/models.go)
--   Db.World           the state: tables, sequences, clock, faults to come, queue, random numbers,
--                      and the mail sent
--   Db.Query           one function for each statement (db/sqlc/*.sql.go) with its constraints
--   Db.Tx              execTx (store.go), TransferTx, CreateUserTx, VerifyEmailTx (tx_*.go);
--                      Locks has the row locks of concurrent transfers
--   Db.Effects         actions that change no table, or none when they fail; Books: or no entry
--   Db.Success         actions that succeed
--   Util, Val, Token   util/; val/validation.go; token/
--   Mail               mail/sender.go
--   Worker             both sides of worker/task_send_verify_email.go: Distribute and Process; Queues has
--                      the processor's queues and lines (worker/processor.go, logger.go)
--   Gapi               the handlers: Accounts, Transfers, Entries, Users, Sessions (gapi/rpc_*.go),
--                      Interceptor, Metadata, Server, Status and Swagger; Guards, Effects and
--                      Custody have their laws
--   Db.Json            the JSON of the rows (db/sqlc/*_json.go)
--   Api                the REST server (api/): handlers, middleware, routes; Agreement compares it with
--                      Gapi
--   Logger             logger/: Core (configuration, loggers, writers), Values (contexts), Grpc and Stream
--                      (interceptors), Recorder and Http (the middleware)
--   Web                what the program uses of net/http: requests, headers, the response writer
--   Process            main.go: Rpc is the gRPC server with its chain of interceptors, with sequences of
--                      calls to it (Balance, Custody), Gateway the HTTP server in front of it
--   Tests              a small bank and runs on it
--
-- The correspondence. A Go function that takes a context and returns (T, error) is an action: a
-- function from a World to a result and the next World. `if err != nil { return … }` is the bind of
-- that monad. An int64 is an integer: where PostgreSQL refuses a sum out of range the statement fails,
-- and where Go wraps around (the negation of an amount, the int32 product of a page offset) the
-- wrapping is written out. A float64 is its 64 bits. `faults` says of each exchange with the
-- database or the queue whether it is lost; a theorem that does not mention it holds for every
-- pattern of failures. A rollback restores the tables and leaves the sequences. An HTTP handler is a
-- function from a request to the steps that it takes on its writer and the next World; the lines that a
-- middleware or an interceptor logs are part of its result.
--
-- Bounds. Fuel is used three times. The bit length of a significand takes 128 steps, which are enough, since
-- a significand times 100 is below 2 ^ 60 and a number of cents below 2 ^ 64. The decimal digits of an
-- int64 take 19, and the hexadecimal digits of 16 bytes 32.
--
-- Parameters. bcrypt, the encryption of PASETO, the signing and parsing of JWT, the parser of mail
-- addresses, what go-mail and the file system accept, what Gin decodes of a request and the tests of
-- its binding tags, viper, the gateway of grpc-gateway, the redirects of net/http's ServeMux, the embedded
-- document and the HTML of the Swagger page, what zap shows of a message, and the conversion of a float64 out of the range of int64, which Go leaves to the
-- processor.
--
-- Not modelled. The tables of two transactions never interleave: a transaction takes place at
-- once, as the row locks of UPDATE make the ones on the same accounts do. The order in which
-- transfers take those locks is modelled apart (Db.Tx.Locks), as is the interleaving of the
-- checks of a handler with other calls. A lost exchange is lost on its way to the server: that
-- the server acts and only its answer is lost is not modelled. Texts of error messages are left
-- out. zap's encoders and sampler, the lines that handlers and tasks log of their own, the start of the
-- servers (main, runTaskProcessor) and the generated messages and gateway stubs (pb/) are not modelled.
-- A connection that breaks in the middle of an answer is not either, nor
-- what the server does with a Content-Length that a handler declares.
pub mod Common
pub mod Db
pub mod Util
pub mod Val
pub mod Token
pub mod Logger
pub mod Web
pub mod Mail
pub mod Worker
pub mod Gapi
pub mod Api
pub mod Process
pub mod Tests
