-- ===== src/Ocpp/Tagging.antt =====
-- What a parsed frame says of the JSON value that it was read from.
use ocppwo.Common.{◌≤◌, ◌≡◌, true, String, ok, ◌>>=◌, arith}
use ocppwo.Json.{JsonLib}
use ocppwo.Ocpp.{OcppFrame, call, call_result, call_error}
use ocppwo.Ocpp.Frames.{parse_frame}
use ocppwo.Ocpp.RoundTrip.{IsWellTagged}

abbrev pub frame_id : {Json : Type 0} → OcppFrame Json → String
frame_id (call c) = c.message_id
frame_id (call_result c) = c.message_id
frame_id (call_error c) = c.message_id

module _ (J : JsonLib) where
  open J use {Json, at, get_string, is_array, size}

  -- What is parsed as a frame is an array of at least three elements, the frame's message type is
  -- the one of its kind, and its message id is the array's second element.
  pub parse_frame-IsWellTagged :
      (j : Json) (f : OcppFrame Json)
      → parse_frame J j ≡ ok f
      → IsWellTagged f
        × (is_array j ≡ true)
        × (3 ≤ size j)
        × ((at j 1 >>= get_string) ≡ ok (frame_id f))
  unfolding parse_frame
  parse_frame-IsWellTagged j f h = ground arith
