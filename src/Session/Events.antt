-- ===== src/Session/Events.antt =====
-- The session under a sequence of events.
use ocppwo.Common.{ℕ, Option, List, [], ◌∷◌, ◌++◌, String, ℤ}
use ocppwo.Json.{JsonLib}
use ocppwo.Ocpp.{OcppPayload}
use ocppwo.Session.{Session, Callback, Effect, Outcome}
use ocppwo.Session.Calls.{
  send_call, timeout_expires, start_heartbeat, heartbeat_expires, on_transport_connected,
}
use ocppwo.Session.Frames.{on_message, on_close}

pub data Event : Type 0 where
  -- send_call, with the new id, the callback and the timeout
  call_sent : String → OcppPayload → Option Callback → ℕ → Event
  message_received : String → Event
  connection_closed : Event
  timeout_expired : String → Event
  transport_connected : String → Event
  heartbeat_started : Event
  heartbeat_expired : String → ℤ → Event

module _ (J : JsonLib) where
  open J use {Json}

  unfoldable pub step : Session → Event → Outcome Json
  unfolding send_call timeout_expires start_heartbeat heartbeat_expires on_transport_connected
      on_message on_close
  step s (call_sent id p on_reply timeout) = send_call J id p on_reply timeout s
  step s (message_received text) = on_message J text s
  step s connection_closed = on_close J s
  step s (timeout_expired id) = timeout_expires J id s
  step s (transport_connected id) = on_transport_connected J id s
  step s heartbeat_started = start_heartbeat J s
  step s (heartbeat_expired id interval) = heartbeat_expires J id interval s

  unfoldable pub run : Session → List Event → Session × List (Effect Json)
  run s [] = (s, [])
  run s (e ∷ es) =
      let o = step s e in let (last, effects) = run o.session es in (last, o.effects ++ effects)
