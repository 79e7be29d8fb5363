-- ===== src/Ocpp/Handlers.antt =====
-- json_wo/ocpp_model.cpp: the handlers that answer a request. `BootNotificationHandler` leaves out
-- a comma between "304" and "Unexpected payload", so the code is their concatenation, the
-- description is initialised from the details object, by the conversion to std::string, and the
-- details are left null.
use ocppwo.Common.{
  Bool, ◌||◌, [], ◌∷◌, String, str_eq, if◌then◌else◌, Result, ok, ◌>>=◌, Expected, expected, ℤ, pos,
}
use Prim.Native.String.{◌++◌}
use ocppwo.Json.{JsonLib}
use ocppwo.Ocpp.{
  BootNotification, Authorize, HeartBeat, BootNotificationResponse, AuthorizeResponse,
  HeartBeatResponse, OcppFrame, call_result, call_error,
}
use ocppwo.Ocpp.Payloads.{
  to_json_boot_response, to_json_authorize_response, to_json_heartbeat_response,
}

abbrev pub is_incomplete : BootNotification → Bool
is_incomplete b = str_eq b.charge_point_model "" || str_eq b.charge_point_vendor ""

abbrev pub accepted : ℤ → BootNotificationResponse
accepted interval = record {
  current_time = "2025-07-16T12:00:00Z";
  interval = interval;
  status = "Accepted";
}

unfoldable pub authorize_handler_v2 : Authorize → Expected AuthorizeResponse
authorize_handler_v2 a = expected (record { id_tag_info = a.id_tag ++ "OK" })

unfoldable pub heartbeat_handler_v2 : HeartBeat → Expected HeartBeatResponse
heartbeat_handler_v2 h = expected (record { current_time = "2025-07-16T12:00:00Z" })

module _ (J : JsonLib) where
  open J use {Json, get_string, object, of_string, null}

  abbrev result_frame : String → Json → OcppFrame Json
  result_frame id payload =
      call_result (record { message_type_id = pos 3; message_id = id; payload = payload })

  unfoldable pub boot_handler : BootNotification → String → Result (OcppFrame Json)
  unfolding to_json_boot_response
  boot_handler b id =
      if is_incomplete b
      then (do
        let details =
            object (("hint", of_string "chargePointModel or chargePointVendor empty...") ∷ [])
        description ← get_string details
        ok (
            call_error (record {
              message_type_id = pos 4;
              message_id = id;
              error_code = "304Unexpected payload";
              error_description = description;
              error_details = null;
            })))
      else ok (result_frame id (to_json_boot_response J (accepted (pos 5))))

  unfoldable pub authorize_handler : Authorize → String → Result (OcppFrame Json)
  unfolding to_json_authorize_response
  authorize_handler a id =
      ok
        (result_frame id (to_json_authorize_response J (record { id_tag_info = a.id_tag ++ "OK" })))

  unfoldable pub heartbeat_handler : HeartBeat → String → Result (OcppFrame Json)
  unfolding to_json_heartbeat_response
  heartbeat_handler h id = ok (
      result_frame id
        (to_json_heartbeat_response J (record { current_time = "2025-07-16T12:00:00Z" })))
