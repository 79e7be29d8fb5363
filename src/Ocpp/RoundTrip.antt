-- ===== src/Ocpp/RoundTrip.antt =====
-- Printing a frame as JSON and parsing it again.
use ocppwo.Common.{◌≡◌, ok, pos}
use ocppwo.Json.{JsonLib, JsonLaws}
use ocppwo.Json.Arrays.{json_laws}
use ocppwo.Ocpp.{OcppFrame, call, call_result, call_error}
use ocppwo.Ocpp.Frames.{to_json_frame, parse_frame}

-- The type id that a frame of this kind must have.
abbrev pub IsWellTagged : {Json : Type 0} → OcppFrame Json → Type 0
IsWellTagged (call c) = c.message_type_id ≡ pos 2
IsWellTagged (call_result c) = c.message_type_id ≡ pos 3
IsWellTagged (call_error c) = c.message_type_id ≡ pos 4

module _ (J : JsonLib) ⦃L : JsonLaws J⦄ where
  open J use {Json}

  -- A frame whose message type is the one of its kind is read back from its JSON.
  pub parse_frame-to_json_frame :
      (f : OcppFrame Json) → IsWellTagged f → parse_frame J (to_json_frame J f) ≡ ok f
  unfolding parse_frame to_json_frame
  parse_frame-to_json_frame (call c) h = simp (json_laws, h) (rw (← h))
  parse_frame-to_json_frame (call_result c) h = simp (json_laws, h) (rw (← h))
  parse_frame-to_json_frame (call_error c) h = simp (json_laws, h) (rw (← h))
