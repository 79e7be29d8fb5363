-- ===== src/Glue.antt =====
-- json_wo/include/reconnect_glue.hpp: the controller on a WebSocket client. The client has one slot
-- for its close callback, and each operation puts there a function that first calls the one that
-- was there: `on_closed` is what a close does, oldest first.
pub mod Ops
pub mod Closes
pub mod Tests
use ocppwo.Common.{ℕ, Bool, false, true, List, [], ◌∷◌}
use ocppwo.Reconnect.{
  ReconnectController, ReconnectSignals, TransportOps, Job, Effect, default_policy, new_controller,
}

pub data CloseStep : Type 0 where
  -- the callback that `init` sets
  notify_controller : CloseStep
  -- that of async_connect: `cb(false)`
  connect_failed : CloseStep
  -- that of async_close, while it has not run
  close_completed : CloseStep

pub record ReconnectGlue : Type 0 where
  pub rc : ReconnectController
  pub on_closed : List CloseStep

pub data Action : Type 0 where
  start_client close_client : Action
  post_after : ℕ → Job → Action
  -- a call of an observer of rS
  observed : Effect → Action

abbrev pub glue_ops : TransportOps
glue_ops = record { async_connect = true; async_close = true; post_after = true }

-- ReconnectGlue::create, with the observers that are set on `rS`; a unique_ptr owns the controller.
abbrev pub create : ReconnectSignals → ReconnectGlue
create signals = record {
  rc = new_controller default_policy glue_ops signals false;
  on_closed = notify_controller ∷ [];
}
