-- ===== src/Reconnect.antt =====
-- json_wo/include/reconnect.hpp: the reconnect controller. Its callbacks are set or not; what it
-- calls is a list of effects, and what they lead to comes back as a later event. Times are in
-- nanoseconds of the steady clock, delays in milliseconds.
pub mod Backoff
pub mod Control
pub mod Steps
pub mod Delay
pub mod Online
pub mod Attempts
pub mod Tests
use ocppwo.Common.{ℕ, ◌+◌, ◌%◌, ◌^◌, Bool, true, false, Option, none, some, String}

pub data ConnState : Type 0 where
  disconnected connecting connected closing : ConnState

pub data CloseReason : Type 0 where
  clean transport_error protocol_error : CloseReason

-- The jitter ratio is a float, and is part of the jitter that each backoff is given.
pub record ReconnectPolicy : Type 0 where
  pub initial_backoff : ℕ
  pub max_backoff : ℕ
  pub resume_delay : ℕ

abbrev pub default_policy : ReconnectPolicy
default_policy = record { initial_backoff = 500; max_backoff = 30_000; resume_delay = 250 }

-- Which observers are set.
pub record ReconnectSignals : Type 0 where
  pub on_connecting : Bool
  pub on_connected : Bool
  pub on_closed : Bool
  pub on_online : Bool
  pub on_offline : Bool
  pub on_backoff_scheduled : Bool

-- Which operations are provided; `cancel_after` is never called, and a missing `now` is replaced
-- by the steady clock.
pub record TransportOps : Type 0 where
  pub async_connect : Bool
  pub async_close : Bool
  pub post_after : Bool

pub record ReconnectMetrics : Type 0 where
  pub reconnect_attempts_started : ℕ
  pub reconnect_attempts_succeeded : ℕ
  pub reconnect_attempts_failed : ℕ
  pub last_attempt_started_at : Option ℕ
  pub last_reconnect_duration : Option ℕ
  pub last_disconnect_reason : Option CloseReason

pub record ReconnectController : Type 0 where
  pub url : String
  pub policy : ReconnectPolicy
  pub ops : TransportOps
  pub signals : ReconnectSignals
  -- whether a shared_ptr owns the controller, without which `weak_from_this()` is empty
  pub shared : Bool
  pub state : ConnState
  pub attempt : ℕ
  pub online : Bool
  pub reconnect_scheduled : Bool
  pub last_backoff : ℕ
  pub metrics : ReconnectMetrics

-- A callback that was given to `post_after`.
pub data Job : Type 0 where
  retry resume : Job

pub data Effect : Type 0 where
  signal_connecting signal_connected signal_online signal_offline : Effect
  signal_closed : CloseReason → Effect
  signal_backoff : ℕ → Effect
  connect : String → Effect
  close : Effect
  post : ℕ → Job → Effect

-- `x++` of a uint64_t
abbrev pub inc64 : ℕ → ℕ
inc64 n = (n + 1) % 2 ^ 64

abbrev pub no_metrics : ReconnectMetrics
no_metrics = record {
  reconnect_attempts_started = 0;
  reconnect_attempts_succeeded = 0;
  reconnect_attempts_failed = 0;
  last_attempt_started_at = none;
  last_reconnect_duration = none;
  last_disconnect_reason = none;
}

-- The constructor.
abbrev pub new_controller :
    ReconnectPolicy → TransportOps → ReconnectSignals → Bool → ReconnectController
new_controller policy ops signals shared = record {
  url = "";
  policy = policy;
  ops = ops;
  signals = signals;
  shared = shared;
  state = disconnected;
  attempt = 0;
  online = false;
  reconnect_scheduled = false;
  last_backoff = 0;
  metrics = no_metrics;
}
