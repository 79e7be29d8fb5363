-- ===== src/TestClient/Unready.antt =====
-- Without a message, a session does not become ready.
use ocppwo.Common.{
  ℕ, ◌≡◌, refl, false, Option, none, some, List, [], ◌∷◌, String, arith, Result, ok, throws,
}
use ocppwo.Json.{JsonLib}
use ocppwo.Ocpp.{OcppPayload, boot_notification}
use ocppwo.Ocpp.Calls.{create_call}
use ocppwo.Ocpp.Frames.{to_json_call}
use ocppwo.Session.{Session, booting, Pending, Callback, boot_reply, heartbeat_reply, user}
use ocppwo.Session.Calls.{
  is_ready, send_call, request_of, store, timeout_expires, timeout_found, call_back, react,
  on_transport_connected, send_boot, heartbeat_expires, start_heartbeat, start_heartbeat_every,
  error_frame,
}
use ocppwo.Session.Frames.{on_close, close_calls}
use ocppwo.Session.Events.{
  Event as SessionEvent, call_sent, message_received, connection_closed, timeout_expired,
  transport_connected, heartbeat_started, heartbeat_expired, step as session_step,
}

abbrev pub IsNotMessage : SessionEvent → Type 0
IsNotMessage (message_received text) = ⊥
IsNotMessage _ = Unit

abbrev pub IsUnready : Session → Type 0
IsUnready s = is_ready s.state ≡ false

module _ (J : JsonLib) where
  open J use {Json, dump, object}

  store-IsUnready :
      (r : Result String) (id : String) (p : Pending) (timeout : ℕ) (s : Session)
      → IsUnready s
      → IsUnready (store J r id p timeout s).session
  unfolding store
  store-IsUnready (ok line) id p timeout s h = h
  store-IsUnready (throws what) id p timeout s h = h

  sent-IsUnready :
      (id : String) (p : OcppPayload) (cb : Option Callback) (timeout : ℕ) (s : Session)
      → IsUnready s
      → IsUnready (send_call J id p cb timeout s).session
  unfolding send_call
  sent-IsUnready id p cb timeout s h =
      store-IsUnready (dump (to_json_call J (create_call J id p))) id
        (record { resolve = cb; request = request_of p }) timeout s h

  error-IsUnready :
      (id : String) (o : Option Callback) (code text : String) (s : Session)
      → IsUnready s
      → IsUnready (call_back J id o (error_frame J id code text (object [])) s).session
  unfolding call_back react
  error-IsUnready id none code text s h = h
  error-IsUnready id (some boot_reply) code text s h = h
  error-IsUnready id (some heartbeat_reply) code text s h = h
  error-IsUnready id (some (user n)) code text s h = h

  timeout-IsUnready :
      (id : String) (o : Option Pending) (s : Session)
      → IsUnready s
      → IsUnready (timeout_found J id o s).session
  unfolding timeout_found
  timeout-IsUnready id none s h = h
  timeout-IsUnready id (some p) s h = error-IsUnready id p.resolve "Timeout" "Request timed out" _ h

  close_calls-IsUnready :
      (m : List (String × Pending)) (s : Session)
      → IsUnready s
      → IsUnready (close_calls J m s).session
  unfolding close_calls
  close_calls-IsUnready [] s h = h
  close_calls-IsUnready ((id, p) ∷ m) s h =
      close_calls-IsUnready m _
        (error-IsUnready id p.resolve "ConnectionClosed" "Connection closed before reply" s h)

  pub session_step-IsUnready :
      (s : Session) (e : SessionEvent)
      → IsNotMessage e
      → IsUnready s
      → IsUnready (session_step J s e).session
  unfolding session_step timeout_expires on_transport_connected send_boot heartbeat_expires
      start_heartbeat start_heartbeat_every on_close
  session_step-IsUnready s (call_sent id p cb timeout) n h = sent-IsUnready id p cb timeout s h
  session_step-IsUnready s (message_received text) n h = absurd n
  session_step-IsUnready s connection_closed n h = close_calls-IsUnready s.pending _ refl
  session_step-IsUnready s (timeout_expired id) n h = timeout-IsUnready id _ _ h
  session_step-IsUnready s (transport_connected id) n h =
      sent-IsUnready id
        (boot_notification (record { charge_point_model = "X100"; charge_point_vendor = "OpenAI" }))
        (some boot_reply) 10 (record s { state = booting }) refl
  session_step-IsUnready s heartbeat_started n h = ground (arith, h)
  session_step-IsUnready s (heartbeat_expired id interval) n h = ground (arith, h)
