-- ===== src/Ocpp/Prints.antt =====
-- json_wo/ocpp_model.cpp: `dispatch_frame` and the handlers that print, on the text in std::cout.
use Prim.Native.String.{◌++◌}
use ocppwo.Common.{String, ok}
use ocppwo.Json.{JsonLib}
use ocppwo.Ocpp.{Call, CallResult, OcppFrame, call, call_result, call_error}
use ocppwo.Ocpp.Frames.{to_string}
use ocppwo.Router.Effects.{Eff, lift, ◌>>=◌}

-- `std::cout << text`
abbrev pub say : String → Eff String (Unit {0})
say text out = (ok tt, out ++ text)

module _ (J : JsonLib) where
  open J use {Json, dump}

  -- `std::cout << payload << std::endl`; of a payload that cannot be printed nothing comes out.
  abbrev say_payload : Json → Eff String (Unit {0})
  say_payload payload = lift (dump payload) >>= λ text. say (text ++ "\n")

  unfoldable pub handle_call : Call Json → Eff String (Unit {0})
  unfolding to_string
  handle_call x =
      say (
        "[Call] TypeId: "
        ++ to_string x.message_type_id
        ++ ",messageId: "
        ++ x.message_id
        ++ ",action: "
        ++ x.action
        ++ ", payload: ")
      >>= λ u. say_payload x.payload

  unfoldable pub handle_call_result : CallResult Json → Eff String (Unit {0})
  unfolding to_string
  handle_call_result x =
      say (
        "[CallResult] messageTypeId: "
        ++ to_string x.message_type_id
        ++ ", messageId: "
        ++ x.message_id
        ++ ", payload: ")
      >>= λ u. say_payload x.payload

  unfoldable pub dispatch_frame : OcppFrame Json → Eff String (Unit {0})
  unfolding handle_call handle_call_result
  dispatch_frame (call x) = handle_call x
  dispatch_frame (call_result x) = handle_call_result x
  dispatch_frame (call_error x) = lift (ok tt)
