-- ===== src/Ocpp.antt =====
-- json_wo/include/ocpp_model.hpp: the OCPP messages. A frame holds its payload as a JSON value,
-- so the frame types take the type of JSON values.
pub mod Frames
pub mod Payloads
pub mod Calls
pub mod Handlers
pub mod RoundTrip
pub mod PayloadTrip
pub mod Tagging
pub mod Ids
pub mod Prints
pub mod Tests
use ocppwo.Common.{String, ℤ}

pub record BootNotification : Type 0 where
  pub charge_point_model : String
  pub charge_point_vendor : String

pub record BootNotificationResponse : Type 0 where
  pub current_time : String
  pub interval : ℤ
  pub status : String

pub record Authorize : Type 0 where
  pub id_tag : String

pub record AuthorizeResponse : Type 0 where
  pub id_tag_info : String

-- No fields, just a signal.
pub data HeartBeat : Type 0 where
  heart_beat : HeartBeat

pub record HeartBeatResponse : Type 0 where
  pub current_time : String

pub data UnknownAction : Type 0 where
  unknown_action : UnknownAction

pub record Call (Json : Type 0) : Type 0 where
  pub message_type_id : ℤ
  pub message_id : String
  pub action : String
  pub payload : Json

pub record CallResult (Json : Type 0) : Type 0 where
  pub message_type_id : ℤ
  pub message_id : String
  pub payload : Json

pub record CallError (Json : Type 0) : Type 0 where
  pub message_type_id : ℤ
  pub message_id : String
  pub error_code : String
  pub error_description : String
  pub error_details : Json

-- std::variant<Call, CallResult, CallError>
pub data OcppFrame (Json : Type 0) : Type 0 where
  call : Call Json → OcppFrame Json
  call_result : CallResult Json → OcppFrame Json
  call_error : CallError Json → OcppFrame Json

-- std::variant<BootNotification, Authorize, HeartBeat>
pub data OcppPayload : Type 0 where
  boot_notification : BootNotification → OcppPayload
  authorize : Authorize → OcppPayload
  heartbeat : HeartBeat → OcppPayload

-- OcppActionName<T>::value
pub data ActionTag : Type 0 where
  boot_tag authorize_tag heartbeat_tag unknown_tag : ActionTag

abbrev pub action_name : ActionTag → String
action_name boot_tag = "BootNotification"
action_name authorize_tag = "Authorize"
action_name heartbeat_tag = "HeartBeat"
action_name unknown_tag = "UnknownAction"

-- ExpectedResponse<T>::value; `UnknownAction` has none.
pub data RequestTag : Type 0 where
  boot_request authorize_request heartbeat_request : RequestTag

abbrev pub expected_response : RequestTag → String
expected_response boot_request = "BootNotificationResponse"
expected_response authorize_request = "AuthorizeResponse"
expected_response heartbeat_request = "HeartBeatResponse"
