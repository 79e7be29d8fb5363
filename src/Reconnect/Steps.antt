-- ===== src/Reconnect/Steps.antt =====
-- The controller under a sequence of events.
use ocppwo.Common.{ℕ, Bool, List, [], ◌∷◌, String}
use ocppwo.Reconnect.{CloseReason, ReconnectController, Job, Effect}
use ocppwo.Reconnect.Control.{
  start, stop, close_done, on_transport_open, on_transport_close, on_boot_accepted, connect_done,
  job_runs, with_effects,
}

pub data Event : Type 0 where
  started : String → ℕ → Event
  stopped : Event
  close_completes : Event
  transport_opened : ℕ → Event
  transport_closed : (ℕ → ℕ) → CloseReason → Event
  boot_accepted : Event
  connect_completes : ℕ → (ℕ → ℕ) → Bool → Event
  job : ℕ → Job → Event

unfoldable pub step : ReconnectController → Event → ReconnectController × List Effect
unfolding start stop close_done on_transport_open on_transport_close on_boot_accepted connect_done
    job_runs
step c (started url now) = start url now c
step c stopped = stop c
step c close_completes = close_done c
step c (transport_opened now) = on_transport_open now c
step c (transport_closed jitter why) = on_transport_close jitter why c
step c boot_accepted = on_boot_accepted c
step c (connect_completes now jitter ok) = connect_done now jitter ok c
step c (job now j) = job_runs now j c

unfoldable pub run : ReconnectController → List Event → ReconnectController × List Effect
run c [] = (c, [])
run c (e ∷ es) = let (c', effects) = step c e in with_effects effects (run c' es)
