-- ===== src/Ocpp/PayloadTrip.antt =====
-- Printing a payload as JSON and reading it again.
use ocppwo.Common.{◌≡◌, ok, arith, eq_iff}
use ocppwo.Json.{JsonLib, JsonLaws}
use ocppwo.Json.Arrays.{json_laws}
use ocppwo.Ocpp.{
  BootNotification, BootNotificationResponse, Authorize, AuthorizeResponse, HeartBeatResponse,
}
use ocppwo.Ocpp.Payloads.{
  from_json_boot, to_json_boot, to_json_boot_response, from_json_boot_response,
  to_json_authorize_response, from_json_authorize_response, from_json_authorize, to_json_authorize,
  to_json_heartbeat_response, from_json_heartbeat_response,
}

module _ (J : JsonLib) ⦃L : JsonLaws J⦄ where
  pub from_json_boot-to_json_boot :
      (b : BootNotification) → from_json_boot J (to_json_boot J b) ≡ ok b
  unfolding from_json_boot to_json_boot
  from_json_boot-to_json_boot b = simp json_laws

  pub from_json_boot_response-to_json :
      (r : BootNotificationResponse) → from_json_boot_response J (to_json_boot_response J r) ≡ ok r
  unfolding from_json_boot_response to_json_boot_response
  from_json_boot_response-to_json r = simp (
    json_laws,
    L.at_key_next "currentTime" "interval" _ _ (ground (arith, eq_iff "currentTime" "interval")),
    L.at_key_next "currentTime" "status" _ _ (ground (arith, eq_iff "currentTime" "status")),
    L.at_key_next "interval" "status" _ _ (ground (arith, eq_iff "interval" "status")),
  )

  pub from_json_authorize-to_json_authorize :
      (a : Authorize) → from_json_authorize J (to_json_authorize J a) ≡ ok a
  unfolding from_json_authorize to_json_authorize
  from_json_authorize-to_json_authorize a = simp json_laws

  pub from_json_authorize_response-to_json :
      (r : AuthorizeResponse)
      → from_json_authorize_response J (to_json_authorize_response J r) ≡ ok r
  unfolding from_json_authorize_response to_json_authorize_response
  from_json_authorize_response-to_json r = simp json_laws

  pub from_json_heartbeat_response-to_json :
      (r : HeartBeatResponse)
      → from_json_heartbeat_response J (to_json_heartbeat_response J r) ≡ ok r
  unfolding from_json_heartbeat_response to_json_heartbeat_response
  from_json_heartbeat_response-to_json r = simp json_laws

  -- Each kind of payload is read back from the JSON it is printed as: the boot notification, an
  -- array, and the authorize request, an object, and the responses to a boot notification and to an
  -- authorize request, objects, and to a heartbeat, an array.
  pub from_json-to_json :
      (b : BootNotification) (r : BootNotificationResponse) (a : Authorize) (s : AuthorizeResponse)
      (h : HeartBeatResponse)
      → (from_json_boot J (to_json_boot J b) ≡ ok b)
        × (from_json_boot_response J (to_json_boot_response J r) ≡ ok r)
        × (from_json_authorize J (to_json_authorize J a) ≡ ok a)
        × (from_json_authorize_response J (to_json_authorize_response J s) ≡ ok s)
        × (from_json_heartbeat_response J (to_json_heartbeat_response J h) ≡ ok h)
  from_json-to_json b r a s h = (
    from_json_boot-to_json_boot b,
    from_json_boot_response-to_json r,
    from_json_authorize-to_json_authorize a,
    from_json_authorize_response-to_json s,
    from_json_heartbeat_response-to_json h,
  )
