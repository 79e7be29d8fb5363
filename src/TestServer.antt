-- ===== src/TestServer.antt =====
-- json_wo/include/test_server.hpp and json_wo/tests/test_server.cpp: the server of the tests. It
-- serves one session at a time, keeps telemetry and can hold replies back. Sessions are numbered in
-- the order of their acceptance; the clock is an argument. One handler runs at a time.
pub mod Ops
pub mod Messages
pub mod Runs
pub mod Outline
pub mod Telemetry
pub mod Beats
pub mod Accepts
pub mod Replies
pub mod Tests
use ocppwo.Common.{
  ℕ, ◌+◌, ◌%◌, ◌^◌, Bool, true, false, Option, none, some, List, [], ◌∷◌, ◌++◌, String, ℤ, pos,
  negsuc,
}
use ocppwo.Metrics.{Metrics}

pub record Frame : Type 0 where
  pub text : String
  pub t : ℕ

pub record ClosePolicy : Type 0 where
  pub close_after_handshake : Bool
  pub close_after_first_message : Bool
  pub close_after_ms : ℤ

pub data EventType : Type 0 where
  connect reconnect boot_accepted first_heart_beat disconnect : EventType

pub record Event : Type 0 where
  pub type : EventType
  pub ts : ℕ

pub record StoredReply : Type 0 where
  pub message_id : String
  pub reply_text : String

-- What the server asks of a session, of its timer and of its observer.
pub data Action : Type 0 where
  start_session close_session : ℕ → Action
  send : (session : ℕ) → String → Action
  arm_timer : (session : ℕ) → ℤ → Action
  cancel_timer : Action
  observe : Event → Action

pub record TestServer : Type 0 where
  pub manual_replies : Bool
  pub received_call_ids : List String
  pub stored_replies : List StoredReply
  -- whether `on_event_` is set
  pub observed : Bool
  -- `ss`
  pub session : Option ℕ
  pub received : List Frame
  pub heartbeats : List Frame
  pub events : List Event
  pub close_policy : ClosePolicy
  pub first_message_seen : Bool
  -- the session that `close_timer_` is to close
  pub close_timer : Option ℕ
  pub connect_count : ℕ
  pub last_boot_msg_id : String
  pub heartbeat_interval : ℤ
  pub client_disconnected : Bool
  pub metrics : Metrics
  -- how many sessions were made
  pub sessions : ℕ
  -- all that was asked for, oldest first
  pub asked : List Action

-- The constructor, on the metrics that it refers to.
abbrev pub new_test_server : Metrics → TestServer
new_test_server metrics = record {
  manual_replies = false;
  received_call_ids = [];
  stored_replies = [];
  observed = false;
  session = none;
  received = [];
  heartbeats = [];
  events = [];
  close_policy = record {
    close_after_handshake = false;
    close_after_first_message = false;
    close_after_ms = negsuc 0;
  };
  first_message_seen = false;
  close_timer = none;
  connect_count = 0;
  last_boot_msg_id = "";
  heartbeat_interval = pos 5;
  client_disconnected = false;
  metrics = metrics;
  sessions = 0;
  asked = [];
}

abbrev pub ask : Action → TestServer → TestServer
ask a s = record s { asked = s.asked ++ a ∷ [] }
