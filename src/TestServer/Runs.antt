-- ===== src/TestServer/Runs.antt =====
-- The server under what its sessions, its timer and its tests do.
use ocppwo.Common.{ℕ, Bool, Option, none, some, List, [], ◌∷◌, String, ℤ}
use ocppwo.Json.{JsonLib}
use ocppwo.TestServer.{ClosePolicy, TestServer}
use ocppwo.TestServer.Ops.{
  accept_done, session_opened, session_closed, timer_fires, stop, set_boot_conf, set_close_policy,
  on_event, enable_manual_replies, send_stored_reply_for,
}
use ocppwo.TestServer.Messages.{on_message}

pub data Input : Type 0 where
  -- `true` is an error
  client_accepted : Bool → (now : ℕ) → Input
  opened : (session : ℕ) → Input
  message : (session : ℕ) → String → (now : ℕ) → Input
  closed : (now : ℕ) → Input
  timer_fired : (session : ℕ) → Input
  stopped : Input
  boot_conf_set : String → ℤ → Input
  policy_set : ClosePolicy → Input
  observer_set : Input
  manual_set : Bool → Input
  reply_asked : String → Input

abbrev pub stopped_or : Option TestServer → TestServer → TestServer
stopped_or none s = s
stopped_or (some t) s = t

module _ (J : JsonLib) where
  unfoldable pub step : TestServer → Input → TestServer
  unfolding accept_done session_opened session_closed timer_fires stop set_boot_conf
      set_close_policy on_event enable_manual_replies send_stored_reply_for on_message
  step s (client_accepted failed now) = accept_done failed now s
  step s (opened n) = session_opened n s
  step s (message n text now) = (on_message J n text now s).1
  step s (closed now) = session_closed now s
  step s (timer_fired n) = timer_fires n s
  step s stopped = stopped_or (stop s) s
  step s (boot_conf_set id interval) = set_boot_conf id interval s
  step s (policy_set p) = set_close_policy p s
  step s observer_set = on_event s
  step s (manual_set enable) = enable_manual_replies enable s
  step s (reply_asked id) = (send_stored_reply_for id s).1

  unfoldable pub run : TestServer → List Input → TestServer
  run s [] = s
  run s (i ∷ is) = run (step s i) is
