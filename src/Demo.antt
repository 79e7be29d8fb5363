-- ===== src/Demo.antt =====
-- json_wo/main.cpp, the parts outside `#if 0`: an older form of the messages, and a lookup in a
-- list. What its `main` prints is left out.
pub mod Trips
use ocppwo.Common.{
  Option, none, some, List, [], ◌∷◌, String, str_eq, if◌then◌else◌, Result, ok, ◌>>=◌, pos,
}
use ocppwo.Json.{JsonLib}
use ocppwo.Ocpp.{BootNotification, Authorize, Call}

unfoldable pub find_email : List (String × String) → String → Option String
find_email [] name = none
find_email ((user, email) ∷ users) name =
    if str_eq user name then some email else find_email users name

module _ (J : JsonLib) where
  open J use {Json, at, at_key, get_int, get_string, array, of_int, of_string, dump}

  unfoldable pub from_json_boot : Json → Result BootNotification
  from_json_boot j = do
    model ← (at_key j "chargePointModel" >>= get_string)
    vendor ← (at_key j "chargePointVendor" >>= get_string)
    ok (record { charge_point_model = model; charge_point_vendor = vendor })

  unfoldable pub from_json_authorize : Json → Result Authorize
  from_json_authorize j = do tag ← (at j 0 >>= get_string); ok (record { id_tag = tag })

  unfoldable pub from_json_call : Json → Result (Call Json)
  from_json_call x = do
    type_id ← (at x 0 >>= get_int)
    id ← (at x 1 >>= get_string)
    action ← (at x 2 >>= get_string)
    payload ← at x 3
    ok (record { message_type_id = type_id; message_id = id; action = action; payload = payload })

  unfoldable pub to_json_call : Call Json → Json
  to_json_call c =
      array
        (of_int c.message_type_id ∷ of_string c.message_id ∷ of_string c.action ∷ c.payload ∷ [])

  unfoldable pub to_json_boot : BootNotification → Json
  to_json_boot b = array (of_string b.charge_point_model ∷ of_string b.charge_point_vendor ∷ [])

  unfoldable pub to_json_authorize : Authorize → Json
  to_json_authorize a = array (of_string a.id_tag ∷ [])

  -- The template, on the message id and on the payload as JSON.
  unfoldable pub create_call : String → String → Json → Call Json
  create_call id action payload = record {
    message_type_id = pos 2;
    message_id = id;
    action = action;
    payload = payload;
  }

  -- The text that `main` puts on its wire.
  unfoldable pub serialized : String → Result String
  unfolding to_json_call create_call to_json_boot
  serialized id = dump (
      to_json_call (
        create_call id "BootNotification"
          (to_json_boot (record { charge_point_model = "X100"; charge_point_vendor = "OpenAI" }))))
