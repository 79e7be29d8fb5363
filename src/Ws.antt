-- ===== src/Ws.antt =====
-- json_wo/include/ws_client.hpp: the WebSocket client. Boost's calls are actions that the client
-- asks for; their completion handlers are functions on the client's state. Callbacks are values of
-- a type `K`, of which the client only keeps one of each kind and calls it.
pub mod Writes
pub mod Lifecycle
pub mod Machine
pub mod Invariant
pub mod Order
pub mod Drops
pub mod Closing
pub mod Outbox
pub mod Refine
pub mod Futures
pub mod Promises
pub mod Tests
use ocppwo.Common.{ℕ, Bool, false, Option, none, List, [], String, ◌+◌, ◌-◌, ◌%◌, ◌^◌}
use ocppwo.Metrics.{Metrics}

pub data WsClientState : Type 0 where
  disconnected connected connecting : WsClientState

pub record WsClient (K : Type 0) : Type 0 where
  pub host : String
  pub port : String
  pub on_message : Option K
  pub on_connected : Option K
  pub on_closed : Option K
  pub on_ping : Option K
  pub write_queue : List String
  pub write_in_progress : Bool
  pub writes_in_flight : ℕ
  pub max_writes_in_flight : ℕ
  pub max_write_queue_depth : ℕ
  pub current_write_queue_depth : ℕ
  pub state : WsClientState
  pub metrics : Metrics
  pub close_pending : Bool
  pub close_started : Bool

-- What a handler asks of Boost and of the callbacks, in order.
pub data Action (K : Type 0) : Type 0 where
  -- async_write of this text
  write : String → Action K
  -- a task posted on the strand that calls async_close
  post_close : Action K
  -- async_resolve, async_connect, async_handshake, async_read, async_pong
  resolve connect handshake read : Action K
  pong : String → Action K
  -- calls of callbacks; `call_none` is a call of an empty std::function, which throws
  call_message : K → String → Action K
  call_connected : K → Action K
  call_closed : K → Action K
  call_ping : K → String → Action K
  call_none : Action K
  -- async_close with a handler that does nothing, and the closing of the socket by hand
  quiet_close cancel_socket shutdown_socket close_socket : Action K

-- The constructor, on the metrics that it refers to.
abbrev pub new_client : {K : Type 0} → String → String → Metrics → WsClient K
new_client host port metrics = record {
  host = host;
  port = port;
  on_message = none;
  on_connected = none;
  on_closed = none;
  on_ping = none;
  write_queue = [];
  write_in_progress = false;
  writes_in_flight = 0;
  max_writes_in_flight = 0;
  max_write_queue_depth = 0;
  current_write_queue_depth = 0;
  state = disconnected;
  metrics = metrics;
  close_pending = false;
  close_started = false;
}

-- `x++` and `x--` of a 32-bit `unsigned`
abbrev pub inc32 : ℕ → ℕ
inc32 n = (n + 1) % 2 ^ 32

abbrev pub dec32 : ℕ → ℕ
dec32 n = (n + (2 ^ 32 - 1)) % 2 ^ 32
