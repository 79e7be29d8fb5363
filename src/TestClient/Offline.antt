-- ===== src/TestClient/Offline.antt =====
-- The client of the tests is never online, and its session never ready.
use Prim.Native.String.{◌++◌ as joined}
use ocppwo.Common.{
  ◌≡◌, refl, sym, ap, subst, ◌∙◌, true, false, none, some, List, [], ◌∷◌, String, All, pos,
}
use ocppwo.Glue.{Action as GlueAction, start_client, close_client, post_after, observed}
use ocppwo.Glue.Ops.{
  Event as GlueEvent, started, stopped, accepted, connected as opened, closed, fired,
  step as glue_step,
}
use ocppwo.Json.{JsonLib}
use ocppwo.Ocpp.{boot_notification, authorize}
use ocppwo.Reconnect.{
  Effect, signal_connecting, signal_connected, signal_online, signal_offline, signal_closed,
  signal_backoff, connect, close, post,
}
use ocppwo.Session.{user}
use ocppwo.Session.Calls.{is_ready, start_heartbeat_every}
use ocppwo.Session.Events.{
  Event as SessionEvent, call_sent, connection_closed, timeout_expired, transport_connected,
  heartbeat_expired,
}
use ocppwo.TestClient.{TestClient, new_test_client}
use ocppwo.TestClient.Ops.{
  take_outcome, session_event, observe, take_up, take_all, glue_event, deliver_text, start,
  close_connection, trigger_boot, is_online, enable_heartbeats, send_boot as boot_sent,
  send_authorize, Event, start_called, close_called, boot_triggered, heartbeats_enabled,
  boot_called, authorize_called, transport_opened, transport_closed, job_fired, text_read,
  boot_accepted, timer_expired, heartbeat_due, step, run,
}
use ocppwo.TestClient.Quiet.{IsAlone, IsNotOnline, IsSilent, glue_step-Rests}
use ocppwo.Ws.Lifecycle.{read_done}
use ocppwo.TestClient.Unready.{IsNotMessage, IsUnready, session_step-IsUnready}

module _ (J : JsonLib) where
  record IsQuiet (t : TestClient) : Type 0 where
    pub alone : IsAlone t.glue.rc
    pub offline : t.online ≡ false
    pub no_transition : t.online_transitions ≡ 0
    pub deaf : t.client.on_message ≡ none
    pub unready : IsUnready t.session
    pub no_interval : t.heartbeat_interval ≡ pos 0

  session-IsQuiet :
      (e : SessionEvent) (t : TestClient)
      → IsNotMessage e
      → IsQuiet t
      → IsQuiet (session_event J e t).0
  session-IsQuiet e t n q = record {
    alone = q.alone;
    offline = q.offline;
    no_transition = q.no_transition;
    deaf = q.deaf;
    unready = session_step-IsUnready J t.session e n q.unready;
    no_interval = q.no_interval;
  }

  same-IsQuiet :
      (t u : TestClient)
      → u.glue ≡ t.glue
      → u.online ≡ t.online
      → u.online_transitions ≡ t.online_transitions
      → u.client ≡ t.client
      → IsUnready u.session
      → u.heartbeat_interval ≡ t.heartbeat_interval
      → IsQuiet t
      → IsQuiet u
  same-IsQuiet t u a b c d e f q = record {
    alone = subst (λ g. IsAlone g.rc) (sym a) q.alone;
    offline = b ∙ q.offline;
    no_transition = c ∙ q.no_transition;
    deaf = ap (λ k. k.on_message) d ∙ q.deaf;
    unready = e;
    no_interval = f ∙ q.no_interval;
  }

  observe-IsQuiet :
      (id : String) (e : Effect) (t : TestClient)
      → IsNotOnline e
      → IsQuiet t
      → IsQuiet (observe J id e t).0
  unfolding observe
  observe-IsQuiet id signal_connecting t n q = same-IsQuiet t _ refl refl refl refl q.unready refl q
  observe-IsQuiet id signal_connected t n q = session-IsQuiet (transport_connected id) t tt q
  observe-IsQuiet id signal_online t n q = absurd n
  observe-IsQuiet id signal_offline t n q =
      same-IsQuiet t _ refl (sym q.offline) refl refl q.unready refl q
  observe-IsQuiet id (signal_closed why) t n q = session-IsQuiet connection_closed t tt q
  observe-IsQuiet id (signal_backoff delay) t n q =
      same-IsQuiet t _ refl refl refl refl q.unready refl q
  observe-IsQuiet id (connect url) t n q = q
  observe-IsQuiet id close t n q = q
  observe-IsQuiet id (post delay j) t n q = q

  take_actions-IsQuiet :
      (id : String) (actions : List GlueAction) (t : TestClient)
      → All IsSilent actions
      → IsQuiet t
      → IsQuiet (take_all J id actions t).0
  unfolding take_all take_up
  take_actions-IsQuiet id [] t n q = q
  take_actions-IsQuiet id (start_client ∷ rest) t n q = take_actions-IsQuiet id rest t n.1 q
  take_actions-IsQuiet id (close_client ∷ rest) t n q = take_actions-IsQuiet id rest t n.1 q
  take_actions-IsQuiet id (post_after delay j ∷ rest) t n q = take_actions-IsQuiet id rest t n.1 q
  take_actions-IsQuiet id (observed e ∷ rest) t n q =
      take_actions-IsQuiet id rest (observe J id e t).0 n.1 (observe-IsQuiet id e t n.0 q)

  glue-IsQuiet :
      (id : String) (e : GlueEvent) (t : TestClient) → IsQuiet t → IsQuiet (glue_event J id e t).0
  unfolding glue_event
  glue-IsQuiet id e t q =
      let (alone, silent) = glue_step-Rests t.glue e q.alone in
      take_actions-IsQuiet id (glue_step t.glue e).1 (record t { glue = (glue_step t.glue e).0 })
        silent
        (record {
          alone = alone;
          offline = q.offline;
          no_transition = q.no_transition;
          deaf = q.deaf;
          unready = q.unready;
          no_interval = q.no_interval;
        })

  step-IsQuiet : (t : TestClient) (e : Event) → IsQuiet t → IsQuiet (step J t e).0
  unfolding step start close_connection trigger_boot enable_heartbeats boot_sent send_authorize
      deliver_text read_done start_heartbeat_every
  step-IsQuiet t (start_called now) q = glue-IsQuiet "" (started (joined t.host t.port) now) t q
  step-IsQuiet t close_called q = glue-IsQuiet "" stopped t q
  step-IsQuiet t (boot_triggered id) q = session-IsQuiet (transport_connected id) t tt q
  step-IsQuiet t (heartbeats_enabled true) q = same-IsQuiet t _ refl refl refl refl q.unready refl q
  step-IsQuiet t (heartbeats_enabled false) q =
      same-IsQuiet t _ refl refl refl refl q.unready refl q
  step-IsQuiet t (boot_called id cb) q =
      session-IsQuiet
        (call_sent id
          (boot_notification
            (record { charge_point_model = "ModelA"; charge_point_vendor = "VendorA" }))
          (some (user cb)) 10)
        t tt q
  step-IsQuiet t (authorize_called id cb) q =
      session-IsQuiet (call_sent id (authorize (record { id_tag = "ABC123" })) (some (user cb)) 10)
        t tt q
  step-IsQuiet t (transport_opened id now jitter) q = glue-IsQuiet id (opened now jitter) t q
  step-IsQuiet t (transport_closed now jitter) q = glue-IsQuiet "" (closed now jitter) t q
  step-IsQuiet t (job_fired now j) q = glue-IsQuiet "" (fired now j) t q
  step-IsQuiet t (text_read text) q = rw q.deaf (record {
    alone = q.alone;
    offline = q.offline;
    no_transition = q.no_transition;
    deaf = refl;
    unready = q.unready;
    no_interval = q.no_interval;
  })
  step-IsQuiet t boot_accepted q = glue-IsQuiet "" accepted t q
  step-IsQuiet t (timer_expired id) q = session-IsQuiet (timeout_expired id) t tt q
  step-IsQuiet t (heartbeat_due id interval) q =
      session-IsQuiet (heartbeat_expired id interval) t tt q

  run-IsQuiet : (t : TestClient) (es : List Event) → IsQuiet t → IsQuiet (run J t es).0
  unfolding run
  run-IsQuiet t [] q = q
  run-IsQuiet t (e ∷ es) q = run-IsQuiet (step J t e).0 es (step-IsQuiet t e q)

  enable-same :
      (t : TestClient) → IsQuiet t → enable_heartbeats J true t ≡ enable_heartbeats J false t
  unfolding enable_heartbeats
  enable-same t q = ap (λ i. take_outcome J (start_heartbeat_every J i t.session) t) q.no_interval

  -- However a new client of the tests is used, and whatever its transport and its timers do: it is
  -- not online and counts no transition to online, its session is not ready, and enabling the
  -- heartbeats does what disabling them does.
  pub run-is_online :
      (host port : String) (es : List Event)
      → let t = (run J (new_test_client host port) es).0 in
        (is_online t ≡ false)
        × (t.online_transitions ≡ 0)
        × (is_ready t.session.state ≡ false)
        × (enable_heartbeats J true t ≡ enable_heartbeats J false t)
  unfolding is_online
  run-is_online host port es =
      let q = run-IsQuiet (new_test_client host port) es (record {
        alone = (refl, refl);
        offline = refl;
        no_transition = refl;
        deaf = refl;
        unready = refl;
        no_interval = refl;
      }) in
      (
        q.offline,
        q.no_transition,
        q.unready,
        enable-same (run J (new_test_client host port) es).0 q,
      )
