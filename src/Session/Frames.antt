-- ===== src/Session/Frames.antt =====
-- Incoming frames, and the end of the connection.
use ocppwo.Common.{
  Option, none, some, List, [], ◌∷◌, String, Result, ok, throws, ◌>>=◌, lookup, erase,
}
use ocppwo.Json.{JsonLib}
use ocppwo.Metrics.Ops.{connection_closed_failures_total_increment}
use ocppwo.Ocpp.{
  CallResult, CallError, OcppFrame, call, call_result, call_error, RequestTag, boot_request,
  authorize_request, heartbeat_request, expected_response,
}
use ocppwo.Ocpp.Frames.{parse_frame}
use ocppwo.Ocpp.Payloads.{
  from_json_boot_response, from_json_authorize_response, from_json_heartbeat_response,
}
use ocppwo.Session.{
  Session, disconnected, Pending, Effect, cancel_timeout, Outcome, done, before, inc64,
}
use ocppwo.Session.Calls.{error_frame, call_back}

module _ (J : JsonLib) where
  open J use {Json, parse, object, of_string}

  -- `payload.get<Resp>()` in the lambda `validate_payload` of `send_call`
  unfoldable pub validate_payload : RequestTag → Json → Result (Unit {0})
  validate_payload boot_request j = from_json_boot_response J j >>= λ r. ok tt
  validate_payload authorize_request j = from_json_authorize_response J j >>= λ r. ok tt
  validate_payload heartbeat_request j = from_json_heartbeat_response J j >>= λ r. ok tt

  -- The frame that the callback gets: the result, or an error if its payload was not valid.
  unfoldable pub checked : CallResult Json → RequestTag → Result (Unit {0}) → OcppFrame Json
  checked r request (ok _) = call_result r
  checked r request (throws what) =
      error_frame J r.message_id "ProtocolError" "Reply payload unexpected type" (
        object
          (("expected", of_string (expected_response request)) ∷ ("detail", of_string what) ∷ []))

  unfoldable pub unmatched : Session → Session
  unmatched s = record s { unmatched_replies = inc64 s.unmatched_replies }

  unfoldable pub result_found : CallResult Json → Option Pending → Session → Outcome Json
  unfolding validate_payload checked unmatched call_back
  result_found r none s = done (unmatched s) []
  result_found r (some p) s = before (cancel_timeout r.message_id ∷ []) (
      call_back J r.message_id p.resolve
        (checked r p.request (validate_payload p.request r.payload))
        (record s { pending = erase r.message_id s.pending }))

  unfoldable pub error_found : CallError Json → Option Pending → Session → Outcome Json
  unfolding unmatched call_back
  error_found e none s = done (unmatched s) []
  error_found e (some p) s = before (cancel_timeout e.message_id ∷ []) (
      call_back J e.message_id p.resolve (call_error e)
        (record s { pending = erase e.message_id s.pending }))

  -- Session::on_frame. An incoming Call is ignored.
  unfoldable pub on_frame : OcppFrame Json → Session → Outcome Json
  unfolding result_found error_found
  on_frame (call c) s = done s []
  on_frame (call_result r) s = result_found r (lookup r.message_id s.pending) s
  on_frame (call_error e) s = error_found e (lookup e.message_id s.pending) s

  unfoldable pub parsed_message : Result (OcppFrame Json) → Session → Outcome Json
  unfolding on_frame
  parsed_message (throws what) s = done s []
  parsed_message (ok f) s = record (on_frame f s) { thrown = none }

  -- Session::on_message: every exception is caught and logged.
  unfoldable pub on_message : String → Session → Outcome Json
  unfolding parsed_message
  on_message text s = parsed_message (parse text >>= parse_frame J) s

  -- The loop over the calls that were pending. The session's own callbacks do not throw on an error.
  unfoldable pub close_calls : List (String × Pending) → Session → Outcome Json
  unfolding call_back
  close_calls [] s = done s []
  close_calls ((id, p) ∷ rest) s =
      let o =
        call_back J id p.resolve
          (error_frame J id "ConnectionClosed" "Connection closed before reply" (object [])) s in
      before o.effects (
        close_calls rest (record o.session {
          metrics = connection_closed_failures_total_increment o.session.metrics;
        }))

  abbrev pub cancel_all : List (String × Pending) → List (Effect Json)
  cancel_all [] = []
  cancel_all ((id, p) ∷ rest) = cancel_timeout id ∷ cancel_all rest

  -- Session::on_close
  unfoldable pub on_close : Session → Outcome Json
  unfolding close_calls
  on_close s =
      before (cancel_all s.pending)
        (close_calls s.pending (record s { state = disconnected; pending = [] }))
