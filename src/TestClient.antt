-- ===== src/TestClient.antt =====
-- json_wo/tests/test_client.cpp and json_wo/include/test_client.hpp: the client of the tests, a
-- session on the reconnect glue. What the session sends here prints, so that its calls do not throw.
pub mod Ops
pub mod Quiet
pub mod Unready
pub mod Offline
pub mod Tests
use ocppwo.Common.{ℕ, ◌+◌, ◌%◌, ◌^◌, Bool, true, false, String, ℤ, pos}
use ocppwo.Glue.{ReconnectGlue, create}
use ocppwo.Metrics.{no_metrics}
use ocppwo.Reconnect.{ReconnectSignals, Job}
use ocppwo.Session.{Session, Effect, new_session}
use ocppwo.Ws.{WsClient, new_client}

pub data TestClientState : Type 0 where
  disconnected connecting connected booting ready : TestClientState

-- A message callback for the transport, which hands the text to the session. Nothing sets it: the
-- lines of Session's constructor that would are comments.
pub data Hook : Type 0 where
  session_message : Hook

pub record TestClient : Type 0 where
  pub host : String
  pub port : String
  -- of the transport only the message callback is used here; the glue has the others
  pub client : WsClient Hook
  pub session : Session
  pub glue : ReconnectGlue
  pub online : Bool
  pub heartbeat_interval : ℤ
  pub backoff : ℕ
  pub backoff_scheduled : Bool
  pub connect_attempts : ℕ
  pub online_transitions : ℕ
  pub state : TestClientState

pub data Action (Json : Type 0) : Type 0 where
  start_client close_client : Action Json
  post_after : ℕ → Job → Action Json
  -- what the session does
  session_does : Effect Json → Action Json

-- The observers that the constructor sets: all.
abbrev pub observers : ReconnectSignals
observers = record {
  on_connecting = true;
  on_connected = true;
  on_closed = true;
  on_online = true;
  on_offline = true;
  on_backoff_scheduled = true;
}

-- The constructor.
abbrev pub new_test_client : String → String → TestClient
new_test_client host port = record {
  host = host;
  port = port;
  client = new_client host port no_metrics;
  session = new_session no_metrics true;
  glue = create observers;
  online = false;
  heartbeat_interval = pos 0;
  backoff = 0;
  backoff_scheduled = false;
  connect_attempts = 0;
  online_transitions = 0;
  state = disconnected;
}

-- `fetch_add(1)` on a uint64_t
abbrev pub inc64 : ℕ → ℕ
inc64 n = (n + 1) % 2 ^ 64
