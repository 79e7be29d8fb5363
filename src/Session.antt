-- ===== src/Session.antt =====
-- json_wo/include/session.hpp: a session keeps the calls that wait for a reply, their timeouts, the
-- heartbeat and the boot state. Callbacks are named by data, timers and the transport are effects.
-- One handler runs at a time, as on the session's io_context; a callback of the user's does not
-- throw, and calls the session again only as a later event.
pub mod Calls
pub mod Frames
pub mod Events
pub mod Balance
pub mod Once
pub mod Boot
pub mod Reply
pub mod Life
pub mod Trace
pub mod Shows
pub mod Refine
pub mod Tests
use ocppwo.Common.{ℕ, ◌+◌, ◌%◌, ◌^◌, Bool, Option, none, List, [], ◌++◌, String, ℤ, pos}
use ocppwo.Metrics.{Metrics}
use ocppwo.Ocpp.{OcppFrame, RequestTag}

pub data SessionState : Type 0 where
  disconnected connected booting ready : SessionState

-- A reply callback: that of `send_boot`, that of the heartbeat, or one of the user's.
pub data Callback : Type 0 where
  boot_reply heartbeat_reply : Callback
  user : ℕ → Callback

-- An entry of `pending`; `resolve` may be an empty std::function. The request decides the expected
-- tag and the check of the payload.
pub record Pending : Type 0 where
  pub resolve : Option Callback
  pub request : RequestTag

pub record Session : Type 0 where
  pub state : SessionState
  pub pending : List (String × Pending)
  pub heartbeat_interval : ℤ
  -- the interval of the armed heartbeat timer
  pub timer : Option ℤ
  pub unmatched_replies : ℕ
  pub metrics : Metrics
  -- whether `session_signals->on_boot_accepted` is set
  pub boot_observer : Bool

pub data Effect (Json : Type 0) : Type 0 where
  transmit : String → Effect Json
  -- the completion callback of this call is invoked
  deliver : (id : String) → Callback → OcppFrame Json → Effect Json
  signal_boot_accepted : Effect Json
  arm_timeout : String → ℕ → Effect Json
  -- another wait on the timer of the entry that is already pending
  join_timeout : String → Effect Json
  cancel_timeout : String → Effect Json
  arm_heartbeat : ℤ → Effect Json

-- What a handler leaves: the session, its effects in order, and the exception that left it.
pub record Outcome (Json : Type 0) : Type 0 where
  pub session : Session
  pub effects : List (Effect Json)
  pub thrown : Option String

abbrev pub done : {Json : Type 0} → Session → List (Effect Json) → Outcome Json
done s effects = record { session = s; effects = effects; thrown = none }

-- What a handler leaves that has these effects before the rest.
abbrev pub before : {Json : Type 0} → List (Effect Json) → Outcome Json → Outcome Json
before es o = record o { effects = es ++ o.effects }

-- The constructor, on the metrics and the observer that it is given.
abbrev pub new_session : Metrics → Bool → Session
new_session metrics boot_observer = record {
  state = disconnected;
  pending = [];
  heartbeat_interval = pos 0;
  timer = none;
  unmatched_replies = 0;
  metrics = metrics;
  boot_observer = boot_observer;
}

-- `fetch_add(1)` on a uint64_t
abbrev pub inc64 : ℕ → ℕ
inc64 n = (n + 1) % 2 ^ 64
