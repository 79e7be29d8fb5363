-- ===== src/Loop.antt =====
-- json_wo/client_loop.cpp: the coordinator of transport, controller, session and metrics. What it
-- asks of the transport, the session and the timers is a list of actions; the controller's
-- callbacks run where it calls them.
pub mod Signals
pub mod Steps
pub mod Probes
pub mod Stop
pub mod Tests
use ocppwo.Common.{ℕ, Bool, true, false, Option, none, String}
use ocppwo.Metrics.{Metrics, no_metrics}
use ocppwo.Reconnect.{
  ReconnectController, ReconnectSignals, TransportOps, Job, default_policy, new_controller,
}

pub data State : Type 0 where
  offline connecting online : State

pub record ClientLoop : Type 0 where
  pub rc : ReconnectController
  -- whether `session` is set, and whether the factory makes one
  pub session : Bool
  pub make_session : Bool
  -- whether the configuration has an `on_backoff_scheduled`
  pub observes_backoff : Bool
  pub metrics : Metrics
  pub connect_attempts : ℕ
  pub online_transitions : ℕ
  pub state : State
  pub connect_start_time : Option ℕ
  pub ever_connected : Bool
  -- whether async_close has wrapped the transport's close callback, and not completed
  pub closing : Bool

pub data Action : Type 0 where
  -- a new transport is made, and its start called
  start_transport : Action
  close_transport : Action
  post_after : ℕ → Job → Action
  cancel_timers : Action
  session_made session_transport_connected session_start_heartbeat session_close : Action
  session_message : String → Action
  backoff_observed : ℕ → Action
  -- a member of the session is called while the pointer is null
  null_session : Action

-- The observers that `wire_signals` sets: all but `on_closed`.
abbrev pub wired : ReconnectSignals
wired = record {
  on_connecting = true;
  on_connected = true;
  on_closed = false;
  on_online = true;
  on_offline = true;
  on_backoff_scheduled = true;
}

-- The operations of `make_transport_ops`.
abbrev pub loop_ops : TransportOps
loop_ops = record { async_connect = true; async_close = true; post_after = true }

-- After the constructor, on the controller that `start_controller` will make.
abbrev pub new_loop : Bool → Bool → ClientLoop
new_loop make_session observes_backoff = record {
  rc = new_controller default_policy loop_ops wired true;
  session = false;
  make_session = make_session;
  observes_backoff = observes_backoff;
  metrics = no_metrics;
  connect_attempts = 0;
  online_transitions = 0;
  state = offline;
  connect_start_time = none;
  ever_connected = false;
  closing = false;
}
