-- ===== src/Ocpp/Payloads.antt =====
-- json_wo/ocpp_model.cpp: the payloads to and from JSON. `get<T>()` starts from a value-initialised
-- T, whose numbers are 0 and whose texts are empty; `from_json` then overwrites what it reads.
use ocppwo.Common.{[], ◌∷◌, if◌then◌else◌, Result, ok, ◌>>=◌, pos}
use ocppwo.Json.{JsonLib}
use ocppwo.Ocpp.{
  BootNotification, BootNotificationResponse, Authorize, AuthorizeResponse, HeartBeat, heart_beat,
  HeartBeatResponse, UnknownAction, OcppPayload, boot_notification, authorize, heartbeat,
}

module _ (J : JsonLib) where
  open J use {
    Json, is_array, is_object, at, at_key, get_int, get_string, array, object, of_int, of_string,
  }

  unfoldable pub from_json_boot : Json → Result BootNotification
  from_json_boot j =
      if is_object j
      then (do
        model ← (at_key j "chargePointModel" >>= get_string)
        vendor ← (at_key j "chargePointVendor" >>= get_string)
        ok (record { charge_point_model = model; charge_point_vendor = vendor }))
      else if is_array j
      then (do
        model ← (at j 0 >>= get_string)
        vendor ← (at j 1 >>= get_string)
        ok (record { charge_point_model = model; charge_point_vendor = vendor }))
      else ok (record { charge_point_model = ""; charge_point_vendor = "" })

  unfoldable pub to_json_boot : BootNotification → Json
  to_json_boot b = array (of_string b.charge_point_model ∷ of_string b.charge_point_vendor ∷ [])

  unfoldable pub to_json_boot_response : BootNotificationResponse → Json
  to_json_boot_response r = object (
      ("currentTime", of_string r.current_time)
      ∷ ("interval", of_int r.interval)
      ∷ ("status", of_string r.status)
      ∷ [])

  unfoldable pub from_json_boot_response : Json → Result BootNotificationResponse
  from_json_boot_response j =
      if is_object j
      then (do
        time ← (at_key j "currentTime" >>= get_string)
        interval ← (at_key j "interval" >>= get_int)
        status ← (at_key j "status" >>= get_string)
        ok (record { current_time = time; interval = interval; status = status }))
      else if is_array j
      then (do
        time ← (at j 0 >>= get_string)
        interval ← (at j 1 >>= get_int)
        status ← (at j 2 >>= get_string)
        ok (record { current_time = time; interval = interval; status = status }))
      else ok (record { current_time = ""; interval = pos 0; status = "" })

  unfoldable pub to_json_authorize_response : AuthorizeResponse → Json
  to_json_authorize_response r = object (("idTagInfo", of_string r.id_tag_info) ∷ [])

  unfoldable pub from_json_authorize_response : Json → Result AuthorizeResponse
  from_json_authorize_response j = do
    info ← (at_key j "idTagInfo" >>= get_string)
    ok (record { id_tag_info = info })

  unfoldable pub from_json_authorize : Json → Result Authorize
  from_json_authorize j = do tag ← (at_key j "idTag" >>= get_string); ok (record { id_tag = tag })

  unfoldable pub to_json_authorize : Authorize → Json
  to_json_authorize a = object (("idTag", of_string a.id_tag) ∷ [])

  unfoldable pub to_json_heartbeat : HeartBeat → Json
  to_json_heartbeat h = object []

  -- Reads nothing.
  unfoldable pub from_json_heartbeat : Json → Result HeartBeat
  from_json_heartbeat j = ok heart_beat

  unfoldable pub to_json_heartbeat_response : HeartBeatResponse → Json
  to_json_heartbeat_response r = array (of_string r.current_time ∷ [])

  unfoldable pub from_json_heartbeat_response : Json → Result HeartBeatResponse
  from_json_heartbeat_response j = do
    time ← (at j 0 >>= get_string)
    ok (record { current_time = time })

  unfoldable pub to_json_unknown : UnknownAction → Json
  to_json_unknown a = object []

  -- `std::visit` of `json(payload)`
  unfoldable pub to_json_payload : OcppPayload → Json
  unfolding to_json_boot to_json_authorize to_json_heartbeat
  to_json_payload (boot_notification b) = to_json_boot b
  to_json_payload (authorize a) = to_json_authorize a
  to_json_payload (heartbeat h) = to_json_heartbeat h
