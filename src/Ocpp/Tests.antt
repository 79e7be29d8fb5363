-- ===== src/Ocpp/Tests.antt =====
-- Messages on concrete inputs.
use ocppwo.Common.{ℕ, ◌*◌, ◌%◌, ◌≡◌, refl, String, ok, pos, arith}
use ocppwo.Json.Coded.{coded_json, coded_laws}
use ocppwo.Ocpp.{OcppFrame, call, BootNotificationResponse}
use ocppwo.Ocpp.Frames.{to_json_frame, parse_frame, to_string}
use ocppwo.Ocpp.Ids.{generate_message_id, add_digits, hex_digit, generate_message_id-injective}
use ocppwo.Ocpp.RoundTrip.{parse_frame-to_json_frame}
use ocppwo.Ocpp.Payloads.{
  from_json_boot_response, to_json_boot_response, from_json_boot, to_json_boot, from_json_authorize,
  to_json_authorize, from_json_authorize_response, to_json_authorize_response,
  from_json_heartbeat_response, to_json_heartbeat_response,
}
use ocppwo.Ocpp.PayloadTrip.{from_json-to_json}

abbrev ping : OcppFrame String
ping =
    call
      (record { message_type_id = pos 2; message_id = "abc"; action = "Authorize"; payload = "n" })

parse_frame-to_json_frame_example : parse_frame coded_json (to_json_frame coded_json ping) ≡ ok ping
parse_frame-to_json_frame_example = parse_frame-to_json_frame coded_json ⦃L = coded_laws⦄ ping refl

printed : to_string (pos 1907) ≡ "1907"
unfolding to_string
printed = refl

abbrev response : BootNotificationResponse
response = record { current_time = "now"; interval = pos 5; status = "Accepted" }

from_json-to_json_example :
    (from_json_boot coded_json
        (to_json_boot coded_json (record { charge_point_model = "M"; charge_point_vendor = "V" }))
      ≡ ok (record { charge_point_model = "M"; charge_point_vendor = "V" }))
    × (from_json_boot_response coded_json (to_json_boot_response coded_json response) ≡ ok response)
    × (from_json_authorize coded_json (to_json_authorize coded_json (record { id_tag = "T" }))
        ≡ ok (record { id_tag = "T" }))
    × (from_json_authorize_response coded_json
          (to_json_authorize_response coded_json (record { id_tag_info = "T" }))
        ≡ ok (record { id_tag_info = "T" }))
    × (from_json_heartbeat_response coded_json
          (to_json_heartbeat_response coded_json (record { current_time = "now" }))
        ≡ ok (record { current_time = "now" }))
from_json-to_json_example =
    from_json-to_json coded_json ⦃L = coded_laws⦄
      (record { charge_point_model = "M"; charge_point_vendor = "V" }) response
      (record { id_tag = "T" }) (record { id_tag_info = "T" }) (record { current_time = "now" })

-- The draws 0, 3, 6 and so on, and the same by another formula.
abbrev threes : ℕ → ℕ
threes k = (k * 3) % 16

first_id : generate_message_id threes ≡ "msg_0369CF25"
unfolding generate_message_id add_digits hex_digit
first_id = refl

generate_message_id-injective_example : threes 5 ≡ (threes 5 * 17) % 16
unfolding generate_message_id add_digits hex_digit
generate_message_id-injective_example =
    generate_message_id-injective threes (λ k. (threes k * 17) % 16) (λ k. omega arith)
      (λ k. omega arith) refl 5 (omega arith)
