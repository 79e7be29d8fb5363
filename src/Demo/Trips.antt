-- ===== src/Demo/Trips.antt =====
-- What the messages of json_wo/main.cpp read of what they print.
use ocppwo.Common.{◌≡◌, ok, Throws, refl}
use ocppwo.Json.{JsonLib, JsonLaws}
use ocppwo.Json.Arrays.{json_laws}
use ocppwo.Ocpp.{BootNotification, Authorize, Call}
use ocppwo.Demo.{
  from_json_boot, from_json_authorize, from_json_call, to_json_call, to_json_boot,
  to_json_authorize,
}

module _ (J : JsonLib) ⦃L : JsonLaws J⦄ where
  pub call_trip : (c : Call J.Json) → from_json_call J (to_json_call J c) ≡ ok c
  unfolding from_json_call to_json_call
  call_trip c = simp json_laws

  pub authorize_trip : (a : Authorize) → from_json_authorize J (to_json_authorize J a) ≡ ok a
  unfolding from_json_authorize to_json_authorize
  authorize_trip a = simp json_laws

  -- A boot notification is printed as an array and read as an object.
  pub boot_trip-Throws : (b : BootNotification) → Throws (from_json_boot J (to_json_boot J b))
  unfolding from_json_boot to_json_boot
  boot_trip-Throws b =
      let (what, e) = L.at_key_other (to_json_boot J b) "chargePointModel" (L.is_object-array _) in
      (what, rw e refl)
