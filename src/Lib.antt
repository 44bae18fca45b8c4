-- ===== src/Lib.antt =====
-- RzGate: an HTTP proxy in front of the Roomzin database.
--
-- A client posts a JSON command. The processor of the command (src/processor) checks the body and
-- writes a binary request. The handler (src/handler) puts a correlation id and a frame around it
-- (src/protocol/mod.rs), sends it on one of its pooled connections and waits until the connection's
-- read loop has taken the response off the stream and found the waiting request in the demultiplexer.
-- The processor then decodes the binary response (src/protocol/response.rs, src/helper.rs) into JSON.
--
-- The files, and the code that they model:
-- - Prelude, with Tests and Lists: shared names, Boolean tests on native numbers, list lemmas.
-- - Bytes, Utf8, Decimal, F64: byte strings, the standard library's UTF-8 functions, `to_string` of an
--   integer, and the order of f64 on its bit patterns.
-- - Flow: a decoder's control flow. `next` goes on, `invalid` is `return invalid_response()`, `panic`
--   an index or a slice out of bounds; `stuck` is a loop of the model without fuel.
-- - RzError (src/error.rs), Metrics (src/metrics.rs), Config (src/config.rs), Bitmask (src/bitmask.rs):
--   the types of the same names. Http has the parts of a response that the code sets.
-- - Protocol: the constants. Protocol.Frame has `build_keepalive_frame`, `prepend_header` and
--   `prepend_router_header`; Protocol.Drain has `drain_frame_async` on a stream that is cut into reads;
--   Protocol.Failure has `error_response` and `invalid_response`; Protocol.Reply is the beginning that
--   all decoders repeat, and Protocol.Response has the decoders of src/protocol/response.rs.
-- - Document: the JSON documents of the README, with which the answers are compared; Document.Answers shows that
--   what the code writes are these documents, Document.Errors has the table of the error messages, and
--   Document.Features the names in a mask. None of it is the code's own.
-- - Helper: the functions of src/helper.rs. `chrono` and `uuid` are parameters.
-- - Handler.Demux: src/handler/demux.rs. Handler.Pool: `next_connection` and `reconnect_closed`, and
--   Handler.Execute: `execute` of src/handler/handler.rs. What the other tasks do between two looks at the
--   shared state is part of the turns: one turn for each attempt. Handler.Connection: the tasks of
--   src/handler/connection.rs, as steps in any order. Handler.Connection.Lifetime: `connect` of the same
--   file, who holds a connection, and its drop. Handler.Maintain: `Handler::new` and
--   `maintain_connections`.
-- - Processor: src/processor. Processor.Json stands for `serde_json`, a parameter. Processor.Request has
--   the writing of requests, and Processor.Perform what follows: the handler is a function there.
--   One module for each family of commands, with its builder of the request (`build_..`), its decoder
--   and its `process_..`.
-- - EndToEnd: the processors on the handler's own `execute`.
-- - Server: src/server.rs, its routes and the requests that it serves, one after the other.
-- - StartUp: `get_codecs_with_retry` of src/lib.rs, on the list of its rounds, of which it uses sixty at
--   most. StartUp.Main: `async_main`, from the codecs to the server.
-- - The modules named Examples apply the theorems to concrete values.
--
-- Integers are the native natural numbers; where the code's type wraps in a release build, the remainder is
-- written out. Loops that the input bounds are structural. The loops over the fields of a response run
-- on fuel, the length of the payload: each round takes seven bytes at least, and that this is enough is
-- part of the results. `execute` runs on its list of turns, of which it uses three at most.
--
-- Not modelled: the web framework, the runtime and the signal handling (src/main.rs), logging,
-- the allocation of buffers, the capacity of a connection's channel (src/handler/connection.rs), and the
-- timer of the reconnection. The threads that serve requests in parallel meet in the turns of `execute`
-- and in the steps of the connections.
pub mod Prelude
pub mod Bytes
pub mod Flow
pub mod Utf8
pub mod Decimal
pub mod RzError
pub mod Metrics
pub mod Http
pub mod Render
pub mod Document
pub mod Bitmask
pub mod Helper
pub mod Config
pub mod Protocol
pub mod F64
pub mod Handler
pub mod Processor
pub mod EndToEnd
pub mod Server
pub mod StartUp
