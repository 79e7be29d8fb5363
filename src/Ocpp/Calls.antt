-- ===== src/Ocpp/Calls.antt =====
-- json_wo/ocpp_model.cpp and ocpp_model.hpp: building a Call.
use ocppwo.Common.{String, pos}
use ocppwo.Json.{JsonLib}
use ocppwo.Ocpp.{
  Call, OcppPayload, boot_notification, authorize, heartbeat, boot_tag, authorize_tag,
  heartbeat_tag, action_name,
}
use ocppwo.Ocpp.Payloads.{to_json_boot, to_json_authorize, to_json_heartbeat, to_json_payload}

unfoldable pub action_for_payload : OcppPayload → String
action_for_payload (boot_notification b) = "BootNotification"
action_for_payload (authorize a) = "Authorize"
action_for_payload (heartbeat h) = "Heartbeat"

module _ (J : JsonLib) where
  open J use {Json}

  abbrev call_of : String → String → Json → Call Json
  call_of id action payload = record {
    message_type_id = pos 2;
    message_id = id;
    action = action;
    payload = payload;
  }

  -- create_call(id, payload) for the variant
  unfoldable pub create_call_variant : String → OcppPayload → Call Json
  unfolding action_for_payload to_json_payload
  create_call_variant id payload =
      call_of id (action_for_payload payload) (to_json_payload J payload)

  -- create_call(id, action, payload)
  unfoldable pub create_call_action : String → String → OcppPayload → Call Json
  unfolding to_json_payload
  create_call_action id action payload = call_of id action (to_json_payload J payload)

  -- The template `create_call<Payload>`, at each payload type of the variant: the overload that
  -- `Session::send_call` uses.
  unfoldable pub create_call : String → OcppPayload → Call Json
  unfolding to_json_boot to_json_authorize to_json_heartbeat
  create_call id (boot_notification b) = call_of id (action_name boot_tag) (to_json_boot J b)
  create_call id (authorize a) = call_of id (action_name authorize_tag) (to_json_authorize J a)
  create_call id (heartbeat h) = call_of id (action_name heartbeat_tag) (to_json_heartbeat J h)
