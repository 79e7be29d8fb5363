-- ===== src/TestClient/Ops.antt =====
-- The observers of the constructor, the members, and what comes from the transport and the timers.
use Prim.Native.String.{◌++◌ as joined}
use ocppwo.Common.{ℕ, Bool, true, false, some, List, [], ◌∷◌, ◌++◌, String, ℤ, pos, map}
use ocppwo.Glue.{
  Action as GlueAction, start_client as starts, close_client as closes, post_after as posts,
  observed,
}
use ocppwo.Glue.Ops.{
  Event as GlueEvent, started, stopped, accepted, connected as opened, closed, fired,
  step as glue_step,
}
use ocppwo.Json.{JsonLib}
use ocppwo.Ocpp.{boot_notification, authorize}
use ocppwo.Reconnect.{
  Job, Effect, signal_connecting, signal_connected, signal_online, signal_offline, signal_closed,
  signal_backoff, connect, close, post,
}
use ocppwo.Session.{user, Outcome}
use ocppwo.Session.Calls.{start_heartbeat_every}
use ocppwo.Session.Events.{
  Event as SessionEvent, call_sent, message_received, connection_closed, timeout_expired,
  transport_connected, heartbeat_expired, step as session_step,
}
use ocppwo.TestClient.{
  TestClient, disconnected, connecting, connected, Hook, session_message, Action, start_client,
  close_client, post_after, session_does, inc64,
}
use ocppwo.Ws.{Action as ClientAction, call_message}
use ocppwo.Ws.Lifecycle.{read_done}

pub data Event : Type 0 where
  start_called : ℕ → Event
  close_called : Event
  boot_triggered : String → Event
  heartbeats_enabled : Bool → Event
  boot_called authorize_called : String → ℕ → Event
  -- the transport connects or closes, or a posted callback runs
  transport_opened : String → ℕ → (ℕ → ℕ) → Event
  transport_closed : ℕ → (ℕ → ℕ) → Event
  job_fired : ℕ → Job → Event
  text_read : String → Event
  -- the lambda in the SessionSignals
  boot_accepted : Event
  timer_expired : String → Event
  heartbeat_due : String → ℤ → Event

unfoldable pub is_online : TestClient → Bool
is_online t = t.online

module _ (J : JsonLib) where
  open J use {Json}

  abbrev pub take_outcome : Outcome Json → TestClient → TestClient × List (Action Json)
  take_outcome o t = (record t { session = o.session }, map session_does o.effects)

  abbrev pub session_event : SessionEvent → TestClient → TestClient × List (Action Json)
  session_event e t = take_outcome (session_step J t.session e) t

  -- An observer of rS, with the id of the call that on_connected makes.
  unfoldable pub observe : String → Effect → TestClient → TestClient × List (Action Json)
  unfolding session_step
  observe id signal_connecting t =
      (record t { connect_attempts = inc64 t.connect_attempts; state = connecting }, [])
  observe id signal_connected t = session_event (transport_connected id) t
  observe id signal_online t = (
    record t { online = true; state = connected; online_transitions = inc64 t.online_transitions },
    [],
  )
  observe id signal_offline t = (record t { online = false; state = disconnected }, [])
  observe id (signal_closed why) t = session_event connection_closed t
  observe id (signal_backoff delay) t = (record t { backoff_scheduled = true; backoff = delay }, [])
  observe id (connect url) t = (t, [])
  observe id close t = (t, [])
  observe id (post delay j) t = (t, [])

  unfoldable pub take_up : String → GlueAction → TestClient → TestClient × List (Action Json)
  unfolding observe
  take_up id starts t = (t, start_client ∷ [])
  take_up id closes t = (t, close_client ∷ [])
  take_up id (posts delay j) t = (t, post_after delay j ∷ [])
  take_up id (observed e) t = observe id e t

  unfoldable pub take_all : String → List GlueAction → TestClient → TestClient × List (Action Json)
  unfolding take_up
  take_all id [] t = (t, [])
  take_all id (a ∷ rest) t =
      let (t', actions) = take_up id a t in
      let (last, more) = take_all id rest t' in (last, actions ++ more)

  -- Something happens to the controller or its transport.
  unfoldable pub glue_event : String → GlueEvent → TestClient → TestClient × List (Action Json)
  unfolding take_all glue_step
  glue_event id e t =
      let (g, actions) = glue_step t.glue e in take_all id actions (record t { glue = g })

  -- What the transport does with a text that it read.
  unfoldable pub deliver_text :
      List (ClientAction Hook) → TestClient → TestClient × List (Action Json)
  unfolding session_step
  deliver_text [] t = (t, [])
  deliver_text (call_message session_message text ∷ rest) t =
      session_event (message_received text) t
  deliver_text (a ∷ rest) t = deliver_text rest t

  unfoldable pub start : ℕ → TestClient → TestClient × List (Action Json)
  unfolding glue_event
  start now t = glue_event "" (started (joined t.host t.port) now) t

  unfoldable pub close_connection : TestClient → TestClient × List (Action Json)
  unfolding glue_event
  close_connection t = glue_event "" stopped t

  unfoldable pub trigger_boot : String → TestClient → TestClient × List (Action Json)
  unfolding session_step
  trigger_boot id t = session_event (transport_connected id) t

  unfoldable pub enable_heartbeats : Bool → TestClient → TestClient × List (Action Json)
  unfolding start_heartbeat_every
  enable_heartbeats true t = take_outcome (start_heartbeat_every J t.heartbeat_interval t.session) t
  enable_heartbeats false t = take_outcome (start_heartbeat_every J (pos 0) t.session) t

  unfoldable pub send_boot : String → ℕ → TestClient → TestClient × List (Action Json)
  unfolding session_step
  send_boot id cb t =
      session_event
        (call_sent id
          (boot_notification
            (record { charge_point_model = "ModelA"; charge_point_vendor = "VendorA" }))
          (some (user cb)) 10)
        t

  unfoldable pub send_authorize : String → ℕ → TestClient → TestClient × List (Action Json)
  unfolding session_step
  send_authorize id cb t =
      session_event (call_sent id (authorize (record { id_tag = "ABC123" })) (some (user cb)) 10) t

  unfoldable pub step : TestClient → Event → TestClient × List (Action Json)
  unfolding start close_connection trigger_boot enable_heartbeats send_boot send_authorize
      glue_event deliver_text session_step
  step t (start_called now) = start now t
  step t close_called = close_connection t
  step t (boot_triggered id) = trigger_boot id t
  step t (heartbeats_enabled b) = enable_heartbeats b t
  step t (boot_called id cb) = send_boot id cb t
  step t (authorize_called id cb) = send_authorize id cb t
  step t (transport_opened id now jitter) = glue_event id (opened now jitter) t
  step t (transport_closed now jitter) = glue_event "" (closed now jitter) t
  step t (job_fired now j) = glue_event "" (fired now j) t
  step t (text_read text) =
      let (c, actions) = read_done text t.client in deliver_text actions (record t { client = c })
  step t boot_accepted = glue_event "" accepted t
  step t (timer_expired id) = session_event (timeout_expired id) t
  step t (heartbeat_due id interval) = session_event (heartbeat_expired id interval) t

  unfoldable pub run : TestClient → List Event → TestClient × List (Action Json)
  run t [] = (t, [])
  run t (e ∷ es) =
      let (t', actions) = step t e in let (last, rest) = run t' es in (last, actions ++ rest)
