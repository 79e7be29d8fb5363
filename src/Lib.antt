-- ===== src/Lib.antt =====
-- An OCPP 1.6J charge-point client and server over WebSocket (json_wo/). A message is a JSON array:
-- a Call [2, id, action, payload], a CallResult [3, id, payload] or a CallError
-- [4, id, code, description, details]. The client keeps a session on a transport; the session sends
-- calls and matches the replies. A reconnect controller decides when the transport connects. The
-- server routes each call to a handler and sends its answer.
--
-- The parts and their files:
--   * Json, Json/: the JSON library json_wo/include/json.hpp is vendored, so its operations are a
--     parameter `JsonLib`, and what its manual says of them is `JsonLaws`. Json/Coded is one
--     implementation, with which the examples compute.
--   * Ocpp, Ocpp/: json_wo/ocpp_model.cpp and json_wo/include/ocpp_model.hpp: `to_json` and
--     `from_json` of frames (Frames) and payloads (Payloads), `parse_frame`, `create_call` (Calls),
--     the handlers (Handlers), message ids on given draws (Ids) and what `dispatch_frame` prints
--     (Prints). A function that may throw gives a `Result`.
--   * Router, Router/: json_wo/router.cpp and json_wo/include/router.hpp: `route`, `addHandler`,
--     `register_handler`, `handle_incoming` and `send_error` (Dispatch). The send callback acts on a
--     state of the caller's and may throw (Effects); the theorems take one that keeps the texts
--     (Sends). Router/Route has the handlers that json_wo/tcp_server.cpp registers.
--   * Metrics, Metrics/: json_wo/metrics.cpp, json_wo/include/metrics.hpp and
--     json_wo/metrics_logger.cpp. The compare-exchange loop of `update_max` runs on a list of turns,
--     which say what other threads wrote and whether the exchange fails spuriously.
--   * Ws, Ws/: json_wo/include/ws_client.hpp: the write queue and the close (Writes), connecting and
--     reading (Lifecycle). Boost's operations are actions, their completions are events, and the
--     strand is a queue of tasks (Machine).
--   * Reconnect, Reconnect/: json_wo/include/reconnect.hpp: the backoff (Backoff), the controller
--     (Control) and its runs (Steps). Jobs given to `post_after` are events; `shared` says whether a
--     shared_ptr owns the controller, which its weak pointers need.
--   * Session, Session/: json_wo/include/session.hpp: sending calls, timeouts, the boot and the
--     heartbeat (Calls), replies and the close (Frames), and runs (Events). A callback is named by
--     data, and what a handler does outside the session is a list of effects.
--   * Server, Server/: json_wo/include/ws_server_session.hpp: accepting, reading and closing (Reads) and
--     the write queue (Writes); Server/Answers takes a call from the client through the server that
--     json_wo/tcp_server.cpp sets up and back; Server/Main is its `main` with all connections and
--     what owns each session (Ownership).
--   * Loop, Loop/: json_wo/client_loop.cpp: the observers (Signals), and the transport's callbacks and
--     the coordinator's methods (Steps). What it asks of others is a list of actions.
--   * Glue, Glue/: json_wo/include/reconnect_glue.hpp: the controller on a WebSocket client (Ops), with
--     the close callback as the list of what it does.
--   * Timers, Timers/: the table of tokens behind `post_after` and `cancel_after`, in
--     json_wo/client_loop.cpp and the same in json_wo/include/reconnect_glue.hpp (Ops), and runs of it
--     with the waits that Boost keeps (Runs).
--   * Tcp, Tcp/: json_wo/include/server.hpp: the session on plain TCP (Lines), with the operations that
--     Boost has under way (Machine). Of a write the text that Boost was asked to write is kept; the buffer
--     that it gets is destroyed before it is written, so that what goes out is left open.
--   * TestServer, TestServer/: json_wo/tests/test_server.cpp and json_wo/include/test_server.hpp: the
--     server of the tests: accepting, events and stored replies (Ops), the message callback (Messages)
--     and runs of it (Runs). Router/Keeps is what its proofs use of the router.
--   * TestClient, TestClient/: json_wo/tests/test_client.cpp and json_wo/include/test_client.hpp: a session
--     on the reconnect glue: the observers and members (Ops), and what the client never does (Offline).
--   * Signals: json_wo/include/signals.hpp, and Demo, Demo/: the code of json_wo/main.cpp outside `#if 0`.
--   * Conversation, Conversation/: calls from a session through the server of json_wo/tcp_server.cpp and
--     back (Whole), by what the sending (Requests) and the replies (Replies) leave.
--   * Common, Common/: what these share: results, lists over the native numbers, and maps with text
--     keys as association lists.
--
-- How they interact: the server's reader hands a call to `route` and prints the frame that comes
-- back; the session builds its calls by `create_call` and reads replies by `parse_frame`; the
-- transport, the controller and the session meet in the effects of each and the events of the next.
--
-- Texts: `dump` throws on a text that is not valid UTF-8. `DumpParses`, that every JSON value prints and
-- is read back, is what the JSON library documents for values whose texts are valid UTF-8, and the
-- theorems with it speak of these alone. The what() of a parse error, which an error reply quotes, need
-- not be such a text; Router/Honest and Router/Sending assume only that what was printed is read back.
--
-- Numbers: a uint64_t counter and an unsigned gauge wrap at 2^64 and 2^32, as written out in their
-- operations; an int of a message is an integer, on which nothing is computed. Printing a number in
-- decimal runs on fuel, one round more than the number, which is enough since each round divides by
-- 10. No other definition has a bound of its own.
--
-- Not modelled: sockets, logging to the console and the random source (ids and jitter are inputs);
-- the harness of the tests, which forwards to their client and server; what json_wo/main.cpp prints,
-- and json_wo/xtcp_client.cpp, json_wo/include/client.hpp and json_wo/draft.hpp, drafts that nothing
-- includes.
-- Handlers run one at a time, as on an io_context that one thread runs, but for `update_max`.
pub mod Common
pub mod Json
pub mod Ocpp
pub mod Router
pub mod Metrics
pub mod Ws
pub mod Reconnect
pub mod Session
pub mod Timers
pub mod Server
pub mod Loop
pub mod Glue
pub mod Tcp
pub mod TestServer
pub mod TestClient
pub mod Conversation
pub mod Signals
pub mod Demo
