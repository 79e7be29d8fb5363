-- ===== src/Session/Calls.antt =====
-- Sending a call, calling its callback, its timeout, the boot sequence and the heartbeat.
use ocppwo.Common.{
  ℕ, Bool, true, false, Option, none, some, List, [], ◌∷◌, String, str_eq, if◌then◌else◌, Result,
  ok, throws, ℤ, pos, is_pos, lookup, erase, emplace,
}
use ocppwo.Json.{JsonLib}
use ocppwo.Metrics.Ops.{timeouts_total_increment}
use ocppwo.Ocpp.{
  BootNotificationResponse, OcppFrame, call, call_result, call_error, OcppPayload,
  boot_notification, authorize, heartbeat, heart_beat, RequestTag, boot_request, authorize_request,
  heartbeat_request,
}
use ocppwo.Ocpp.Frames.{to_json_call}
use ocppwo.Ocpp.Calls.{create_call}
use ocppwo.Ocpp.Payloads.{from_json_boot_response}
use ocppwo.Session.{
  Session, SessionState, ready, booting, Callback, boot_reply, heartbeat_reply, user, Pending,
  Effect, transmit, deliver, signal_boot_accepted, arm_timeout, join_timeout, arm_heartbeat,
  Outcome, done, before,
}

abbrev pub request_of : OcppPayload → RequestTag
request_of (boot_notification b) = boot_request
request_of (authorize a) = authorize_request
request_of (heartbeat h) = heartbeat_request

abbrev pub is_ready : SessionState → Bool
is_ready ready = true
is_ready _ = false

module _ (J : JsonLib) where
  open J use {Json, dump, object}

  -- `CallError{4, id, code, description, details}`
  abbrev pub error_frame : String → String → String → Json → OcppFrame Json
  error_frame id code description details = call_error (record {
    message_type_id = pos 4;
    message_id = id;
    error_code = code;
    error_description = description;
    error_details = details;
  })

  -- The wait on the timer of the entry that `emplace` returns.
  unfoldable pub start_timer : Option Pending → String → ℕ → Effect Json
  start_timer none id timeout = arm_timeout id timeout
  start_timer (some old) id timeout = join_timeout id

  -- What follows the printing of a call in `send_call`; nothing is stored when it threw. An id that
  -- is already pending keeps its old entry.
  unfoldable pub store : Result String → String → Pending → ℕ → Session → Outcome Json
  unfolding start_timer
  store (throws what) id p timeout s = record { session = s; effects = []; thrown = some what }
  store (ok line) id p timeout s =
      done (record s { pending = emplace id p s.pending })
        (start_timer (lookup id s.pending) id timeout ∷ transmit line ∷ [])

  -- Session::send_call, under the id that `generate_message_id` gave
  unfoldable pub send_call : String → OcppPayload → Option Callback → ℕ → Session → Outcome Json
  unfolding store
  send_call id p on_reply timeout s =
      store (dump (to_json_call J (create_call J id p))) id
        (record { resolve = on_reply; request = request_of p }) timeout s

  abbrev pub emit_boot_accepted : Bool → List (Effect Json)
  emit_boot_accepted b = if b then signal_boot_accepted ∷ [] else []

  -- The branch of `send_boot`'s callback on a CallResult.
  unfoldable pub boot_result : Result BootNotificationResponse → Session → Outcome Json
  boot_result (throws what) s = record { session = s; effects = []; thrown = some what }
  boot_result (ok r) s =
      if str_eq r.status "Accepted"
      then done (record s { state = ready; heartbeat_interval = r.interval })
          (emit_boot_accepted s.boot_observer)
      else done s []

  -- What a callback of the session's own does; the heartbeat's only logs.
  unfoldable pub react : Callback → OcppFrame Json → Session → Outcome Json
  unfolding boot_result
  react boot_reply (call_result r) s = boot_result (from_json_boot_response J r.payload) s
  react boot_reply (call_error e) s = done s []
  react boot_reply (call c) s = done s []
  react heartbeat_reply f s = done s []
  react (user n) f s = done s []

  -- `if (cb) cb(f)`
  unfoldable pub call_back : String → Option Callback → OcppFrame Json → Session → Outcome Json
  unfolding react
  call_back id none f s = done s []
  call_back id (some cb) f s = before (deliver id cb f ∷ []) (react cb f s)

  unfoldable pub timeout_found : String → Option Pending → Session → Outcome Json
  unfolding call_back
  timeout_found id none s = done s []
  timeout_found id (some p) s =
      call_back id p.resolve (error_frame id "Timeout" "Request timed out" (object []))
        (record s { pending = erase id s.pending })

  -- The handler of a call's timer, when it was not cancelled in time.
  unfoldable pub timeout_expires : String → Session → Outcome Json
  unfolding timeout_found
  timeout_expires id s =
      timeout_found id (lookup id s.pending)
        (record s { metrics = timeouts_total_increment s.metrics })

  -- Session::start_heartbeat(int)
  unfoldable pub start_heartbeat_every : ℤ → Session → Outcome Json
  start_heartbeat_every interval s =
      done (record s { timer = some interval }) (arm_heartbeat interval ∷ [])

  -- Session::start_heartbeat(void)
  unfoldable pub start_heartbeat : Session → Outcome Json
  unfolding start_heartbeat_every
  start_heartbeat s =
      if is_pos s.heartbeat_interval
      then start_heartbeat_every s.heartbeat_interval s
      else done s []

  unfoldable pub then_rearm : ℤ → Option String → Outcome Json → Outcome Json
  unfolding start_heartbeat_every
  then_rearm interval none o = before o.effects (start_heartbeat_every interval o.session)
  then_rearm interval (some what) o = o

  -- The handler of the heartbeat timer, when it was not cancelled.
  unfoldable pub heartbeat_expires : String → ℤ → Session → Outcome Json
  unfolding send_call then_rearm
  heartbeat_expires id interval s =
      let sent =
        send_call id (heartbeat heart_beat) (some heartbeat_reply) 10 (record s { timer = none }) in
      if is_ready s.state
      then then_rearm interval sent.thrown sent
      else done (record s { timer = none }) []

  -- Session::send_boot
  unfoldable pub send_boot : String → Session → Outcome Json
  unfolding send_call
  send_boot id s =
      send_call id
        (boot_notification (record { charge_point_model = "X100"; charge_point_vendor = "OpenAI" }))
        (some boot_reply) 10 s

  -- Session::on_transport_connected
  unfoldable pub on_transport_connected : String → Session → Outcome Json
  unfolding send_boot
  on_transport_connected id s = send_boot id (record s { state = booting })
