-- ===== src/Router/Dispatch.antt =====
-- The router's operations.
use Prim.Native.String.{◌++◌}
use ocppwo.Common.{
  ◌||◌, not, Option, none, some, [], ◌∷◌, String, ltb, ◌==◌, if◌then◌else◌, Result, ok, ℤ, pos,
  is_int, or_else, Expected, expected, unexpected, lookup, insert,
}
use ocppwo.Common.{◌>>=◌ as bind}
use ocppwo.Json.{JsonLib}
use ocppwo.Ocpp.{Call, OcppFrame, call_error}
use ocppwo.Router.Effects.{Eff, Send, ◌>>=◌, lift, try_catch}
use ocppwo.Router.{FrameHandler, Invoker, Router}

module _ (J : JsonLib) (S : Type 0) where
  open J use {
    Json, is_array, size, at, get_int, get_string, array, object, of_int, of_string, parse, dump,
  }

  abbrev pub error_reply : String → String → String → Json → Json
  error_reply id code description details =
      array (of_int (pos 4) ∷ of_string id ∷ of_string code ∷ of_string description ∷ details ∷ [])

  abbrev pub result_reply : String → Json → Json
  result_reply id conf = array (of_int (pos 3) ∷ of_string id ∷ conf ∷ [])

  -- Router::send_error
  unfoldable pub send_error : String → String → String → Json → Send S → Eff S (Unit {0})
  send_error id code description details send = do
    text ← lift (dump (error_reply id code description details))
    send text

  -- Router::registerHandler
  unfoldable pub register_frame_handler : String → FrameHandler J S → Router J S → Router J S
  register_frame_handler action h r = record r { handler_map = insert action h r.handler_map }

  -- Router::addHandler, with the action name and `get` of its payload type
  unfoldable pub add_handler :
      {Req : Type 0}
      → String
      → (Json → Result Req)
      → (Req → String → Result (OcppFrame Json))
      → Router J S
      → Router J S
  add_handler action from_json h r = record r {
    handler_map =
        insert action (λ c. bind (from_json c.payload) (λ req. h req c.message_id)) r.handler_map;
  }

  -- The two branches of Router::route.
  unfoldable pub route_found : Option (FrameHandler J S) → Call Json → Result (OcppFrame Json)
  route_found (some h) c = h c
  route_found none c = ok (
      call_error (record {
        message_type_id = pos 4;
        message_id = c.message_id;
        error_code = "NotImplemented";
        error_description = "Unknown action: " ++ c.action;
        error_details = object (
            ("hint", of_string "supported actions: HeartBeat,BootNotification, Authorization")
            ∷ []);
      }))

  -- Router::route
  unfoldable pub route : Router J S → Call Json → Result (OcppFrame Json)
  unfolding route_found
  route r c = route_found (lookup c.action r.handler_map) c

  -- The two branches on `res` in the lambda of `register_handler`.
  unfoldable pub answer :
      {Conf : Type 0} → (Conf → Json) → String → Expected Conf → Send S → Eff S (Unit {0})
  answer to_json id (expected conf) send = do
    text ← lift (dump (result_reply id (to_json conf)))
    send text
  answer to_json id (unexpected e) send = do
    text ← lift (dump (error_reply id "InternalError" e (object [])))
    send text

  -- The lambda that `register_handler` stores.
  unfoldable pub invoker :
      {Req Conf : Type 0}
      → (Json → Result Req)
      → (Conf → Json)
      → (Req → Result (Expected Conf))
      → Invoker J S
  unfolding answer
  invoker from_json to_json h id payload send =
      try_catch (do req ← lift (from_json payload); res ← lift (h req); answer to_json id res send)
        (λ what. do
          text ← lift (dump (error_reply id "FormationViolation" what (object [])))
          send text)

  -- Router::register_handler
  unfoldable pub register_handler :
      {Req Conf : Type 0}
      → String
      → (Json → Result Req)
      → (Conf → Json)
      → (Req → Result (Expected Conf))
      → Router J S
      → Router J S
  unfolding invoker
  register_handler action from_json to_json h r = record r {
    table = insert action (invoker from_json to_json h) r.table;
  }

  unfoldable pub best_effort_id : Json → String
  best_effort_id arr = or_else (bind (at arr 1) get_string) ""

  -- The lookup in `table_` and what follows it.
  unfoldable pub dispatch : Option (Invoker J S) → Json → String → Send S → Eff S (Unit {0})
  unfolding send_error best_effort_id
  dispatch (some invoke) arr action send = do
    payload ← lift (at arr 3)
    invoke (best_effort_id arr) payload send
  dispatch none arr action send = do
    id ← lift (bind (at arr 1) get_string)
    send_error id "NotImplemented" ("Unknown action: " ++ action) (object []) send

  -- What `handle_incoming` does with a type id.
  unfoldable pub by_type : Router J S → Json → ℤ → Send S → Eff S (Unit {0})
  unfolding dispatch send_error best_effort_id
  by_type r arr type_id send =
      if not (is_int type_id 2)
      then send_error (best_effort_id arr) "ProtocolError"
          "Expected Call (messageTypeId 2) on this path" (object []) send
      else if not (size arr == 4)
      then send_error (best_effort_id arr) "FormationViolation"
          "Call must have 4 elements[2, messageId, action, payload]" (object []) send
      else (do
        action ← lift (bind (at arr 2) get_string)
        dispatch (lookup action r.table) arr action send)

  -- The checks on the parsed frame.
  unfoldable pub by_shape : Router J S → Json → Send S → Eff S (Unit {0})
  unfolding by_type send_error
  by_shape r arr send =
      if not (is_array arr) || ltb (size arr) 3
      then send_error "" "FormationViolation" "Invalid frame format" (object []) send
      else (do type_id ← lift (bind (at arr 0) get_int); by_type r arr type_id send)

  -- Router::handle_incoming. The reply of the handler of exceptions is printed outside the `try`: where
  -- its `dump` throws, on a what() that is no UTF-8, the exception leaves `handle_incoming`.
  unfoldable pub handle_incoming : Router J S → String → Send S → Eff S (Unit {0})
  unfolding by_shape send_error
  handle_incoming r frame send =
      try_catch (do arr ← lift (parse frame); by_shape r arr send)
        (λ what. send_error "" "FormationViolation" what (object []) send)
