-- ===== src/Server.antt =====
-- json_wo/include/ws_server_session.hpp: the server's end of a connection, and the call handler
-- of json_wo/tcp_server.cpp. What is posted for sending is a list of texts, and an exception that
-- leaves a completion handler is a `throws`: nothing catches it before io_context::run.
pub mod Reads
pub mod Writes
pub mod Answers
pub mod Order
pub mod Closing
pub mod Main
pub mod Outgoing
pub mod Clients
pub mod Ownership
pub mod Crash
pub mod Tests
use ocppwo.Common.{Bool, false, Option, none, List, [], String}

pub data WsServerSessionState : Type 0 where
  disconnected connected : WsServerSessionState

-- The callbacks are values of a type `K`; on_call is an argument of the reader.
pub record WsServerSession (K : Type 0) : Type 0 where
  pub on_message : Option K
  pub on_open : Option K
  pub on_closed : Option K
  pub write_queue : List String
  pub write_in_progress : Bool
  pub state : WsServerSessionState

-- What a handler asks of Boost and of the callbacks, in order.
pub data Action (K : Type 0) : Type 0 where
  write : String → Action K
  read : Action K
  call_message : K → String → Action K
  call_open : K → Action K
  call_closed : K → Action K

-- The constructor.
abbrev pub new_server_session : {K : Type 0} → WsServerSession K
new_server_session = record {
  on_message = none;
  on_open = none;
  on_closed = none;
  write_queue = [];
  write_in_progress = false;
  state = disconnected;
}
