-- ===== src/Ocpp/Frames.antt =====
-- json_wo/ocpp_model.cpp: the frames to and from JSON, and `parse_frame`.
use ocppwo.Common.{
  ℕ, zero, suc, ◌+◌, ◌/◌, ◌%◌, not, ◌||◌, [], ◌∷◌, String, ltb, ◌==◌, if◌then◌else◌, Result, ok,
  throws, ◌>>=◌, ℤ, pos, negsuc, is_int,
}
use Prim.Native.String.{◌++◌}
use ocppwo.Json.{JsonLib}
use ocppwo.Ocpp.{Call, CallResult, CallError, OcppFrame, call, call_result, call_error}

abbrev digit : ℕ → String
digit d =
    if d == 0
    then "0"
    else if d == 1
    then "1"
    else if d == 2
    then "2"
    else if d == 3
    then "3"
    else if d == 4
    then "4"
    else if d == 5
    then "5"
    else if d == 6
    then "6"
    else if d == 7
    then "7"
    else if d == 8
    then "8"
    else "9"

-- The decimal digits; n + 1 rounds are enough, since each divides by 10.
decimal : ℕ → ℕ → String
decimal zero n = ""
decimal (suc fuel) n =
    let more = decimal fuel (n / 10) ++ digit (n % 10) in if ltb n 10 then digit n else more

-- std::to_string
unfoldable pub to_string : ℤ → String
unfolding decimal
to_string (pos n) = decimal (suc n) n
to_string (negsuc n) = "-" ++ decimal (suc (suc n)) (n + 1)

module _ (J : JsonLib) where
  open J use {Json, is_array, size, at, get_int, get_string, array, of_int, of_string}

  unfoldable pub to_json_call : Call Json → Json
  to_json_call c =
      array
        (of_int c.message_type_id ∷ of_string c.message_id ∷ of_string c.action ∷ c.payload ∷ [])

  unfoldable pub from_json_call : Json → Result (Call Json)
  from_json_call x = do
    type_id ← (at x 0 >>= get_int)
    id ← (at x 1 >>= get_string)
    action ← (at x 2 >>= get_string)
    payload ← at x 3
    ok (record { message_type_id = type_id; message_id = id; action = action; payload = payload })

  unfoldable pub from_json_call_result : Json → Result (CallResult Json)
  from_json_call_result x = do
    type_id ← (at x 0 >>= get_int)
    id ← (at x 1 >>= get_string)
    payload ← at x 2
    ok (record { message_type_id = type_id; message_id = id; payload = payload })

  unfoldable pub to_json_call_result : CallResult Json → Json
  to_json_call_result c = array (of_int c.message_type_id ∷ of_string c.message_id ∷ c.payload ∷ [])

  unfoldable pub from_json_call_error : Json → Result (CallError Json)
  from_json_call_error x = do
    type_id ← (at x 0 >>= get_int)
    id ← (at x 1 >>= get_string)
    code ← (at x 2 >>= get_string)
    description ← (at x 3 >>= get_string)
    details ← at x 4
    ok (record {
      message_type_id = type_id;
      message_id = id;
      error_code = code;
      error_description = description;
      error_details = details;
    })

  unfoldable pub to_json_call_error : CallError Json → Json
  to_json_call_error c = array (
      of_int c.message_type_id
      ∷ of_string c.message_id
      ∷ of_string c.error_code
      ∷ of_string c.error_description
      ∷ c.error_details
      ∷ [])

  -- `to_json` of the variant; its `throw` is unreachable, as every alternative is a frame.
  unfoldable pub to_json_frame : OcppFrame Json → Json
  unfolding to_json_call to_json_call_result to_json_call_error
  to_json_frame (call c) = to_json_call c
  to_json_frame (call_result c) = to_json_call_result c
  to_json_frame (call_error c) = to_json_call_error c

  -- The `switch` of `parse_frame`.
  parse_by_type : ℤ → Json → Result (OcppFrame Json)
  unfolding from_json_call from_json_call_result from_json_call_error
  parse_by_type type_id x =
      if is_int type_id 2
      then (from_json_call x >>= λ c. ok (call c))
      else if is_int type_id 3
      then (from_json_call_result x >>= λ c. ok (call_result c))
      else if is_int type_id 4
      then (from_json_call_error x >>= λ c. ok (call_error c))
      else throws ("Unknown messageTypeId: " ++ to_string type_id)

  unfoldable pub parse_frame : Json → Result (OcppFrame Json)
  unfolding parse_by_type
  parse_frame x =
      if not (is_array x) || ltb (size x) 3 then throws "Invalid OCPP frame format" else do
        message_type_id ← (at x 0 >>= get_int)
        message_id ← (at x 1 >>= get_string)
        parse_by_type message_type_id x
