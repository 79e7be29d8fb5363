-- ===== src/Router/Reply.antt =====
-- What the router answers to a well-formed Call.
use Prim.Native.String.{◌++◌}
use ocppwo.Common.{
  ◌≡◌, refl, List, [], String, Result, ok, none, some, inl, inr, pos, Option-cases, lookup,
  Expected, expected, unexpected,
}
use ocppwo.Common.{◌>>=◌ as bindr}
use ocppwo.Json.{JsonLib, JsonLaws}
use ocppwo.Json.Arrays.{json_laws}
use ocppwo.Ocpp.{Call, OcppFrame, call_result, call_error}
use ocppwo.Ocpp.Frames.{parse_frame, to_json_frame, to_json_call}
use ocppwo.Ocpp.RoundTrip.{IsWellTagged, parse_frame-to_json_frame}
use ocppwo.Router.{Invoker, Router}
use ocppwo.Router.Sends.{record_send, SendsOnce, SentOnce, lift_record-SendsOnce}
use ocppwo.Router.Dispatch.{
  answer, dispatch, by_type, by_shape, best_effort_id, invoker, send_error, handle_incoming,
}
use ocppwo.Router.Once.{IsReplyTo, IsReady, DumpParses, send_error-SendsOnce, table-RepliesOnce}

module _ (J : JsonLib) where
  open J use {Json, dump, parse}

  -- The text reads as this frame.
  abbrev pub Reads : OcppFrame Json → String → Type 0
  Reads f text = bindr (parse text) (parse_frame J) ≡ ok f

  -- The answer to a call whose handler gave `res`.
  abbrev pub answer_frame :
      {Conf : Type 0} → (Conf → Json) → String → Expected Conf → OcppFrame Json
  answer_frame to_json id (expected conf) =
      call_result (record { message_type_id = pos 3; message_id = id; payload = to_json conf })
  answer_frame to_json id (unexpected e) = call_error (record {
    message_type_id = pos 4;
    message_id = id;
    error_code = "InternalError";
    error_description = e;
    error_details = J.object [];
  })

  module _ ⦃L : JsonLaws J⦄ where
    print_Reads :
        DumpParses J
        → (f : OcppFrame Json) → IsWellTagged f
        → (text : String) × Reads f text × (dump (to_json_frame J f) ≡ ok text)
    print_Reads total f tag =
        let (text, e, e') = total (to_json_frame J f) in
        (text, rw e' (parse_frame-to_json_frame J f tag), e)

    answer-Reads :
        DumpParses J
        → {Conf : Type 0} (to_json : Conf → Json) (id : String) (res : Expected Conf)
          (log : List String)
        → SentOnce
            (Reads (answer_frame to_json id res))
            (answer J (List String) to_json id res record_send log)
            log
    unfolding answer to_json_frame
    answer-Reads total to_json id (expected conf) log =
        let (text, p, e) = print_Reads total (answer_frame to_json id (expected conf)) refl in
        lift_record-SendsOnce _ _ text e p log
    answer-Reads total to_json id (unexpected what) log =
        let (text, p, e) = print_Reads total (answer_frame to_json id (unexpected what)) refl in
        lift_record-SendsOnce _ _ text e p log

    invoker_answers :
        DumpParses J
        → {Req Conf : Type 0} (from_json : Json → Result Req) (to_json : Conf → Json)
          (h : Req → Result (Expected Conf)) (req : Req) (res : Expected Conf) (id : String)
          (payload : Json)
        → from_json payload ≡ ok req
        → h req ≡ ok res
        → (log : List String)
        → SentOnce
            (Reads (answer_frame to_json id res))
            (invoker J (List String) from_json to_json h id payload record_send log)
            log
    unfolding invoker
    invoker_answers total from_json to_json h req res id payload decoded handled log =
        let (text, p, e) = answer-Reads total to_json id res log in
        (text, p, rw (decoded, handled, e))

  module _ ⦃L : JsonLaws J⦄ (r : Router J (List String)) (c : Call Json)
      (is_call : c.message_type_id ≡ pos 2) where
    by_shape_call :
        (log : List String)
        → by_shape J (List String) r (to_json_call J c) record_send log
          ≡ dispatch J
              (List String)
              (lookup c.action r.table)
              (to_json_call J c)
              c.action
              record_send
              log
    unfolding by_shape by_type to_json_call
    by_shape_call log = simp (json_laws, is_call)

    dispatch-some :
        (f : Invoker J (List String)) (log : List String)
        → dispatch J (List String) (some f) (to_json_call J c) c.action record_send log
          ≡ f c.message_id c.payload record_send log
    unfolding dispatch best_effort_id to_json_call
    dispatch-some f log = simp json_laws

    dispatch-none :
        (log : List String)
        → dispatch J (List String) none (to_json_call J c) c.action record_send log
          ≡ send_error J
              (List String)
              c.message_id
              "NotImplemented"
              ("Unknown action: " ++ c.action)
              (J.object [])
              record_send
              log
    unfolding dispatch to_json_call
    dispatch-none log = simp json_laws

    module _ (frame : String) (parsed : parse frame ≡ ok (to_json_call J c)) where
      -- An answer that the handler of the action sends is what the router sends.
      handle_incoming_found :
          (P : String → Type 0) (f : Invoker J (List String)) (log : List String)
          → lookup c.action r.table ≡ some f
          → SentOnce P (f c.message_id c.payload record_send log) log
          → SentOnce P (handle_incoming J (List String) r frame record_send log) log
      unfolding handle_incoming
      handle_incoming_found P f log found (text, p, e) =
          (text, p, rw (parsed, by_shape_call log, found, dispatch-some f log, e))

      handle_incoming_missing :
          (P : String → Type 0) (log : List String)
          → lookup c.action r.table ≡ none
          → SentOnce P
              (send_error J
                (List String)
                c.message_id
                "NotImplemented"
                ("Unknown action: " ++ c.action)
                (J.object [])
                record_send
                log)
              log
          → SentOnce P (handle_incoming J (List String) r frame record_send log) log
      unfolding handle_incoming
      handle_incoming_missing P log found (text, p, e) =
          (text, p, rw (parsed, by_shape_call log, found, dispatch-none log, e))

      -- A text that parses as a Call is answered once, and the reply carries the Call's message
      -- id, whichever way the call goes, if every stored invoker answers once and whatever is
      -- printed parses.
      pub handle_incoming-IsReplyTo :
          DumpParses J
          → IsReady J r
          → SendsOnce
              (IsReplyTo J c.message_id)
              (handle_incoming J (List String) r frame record_send)
      handle_incoming-IsReplyTo total ready log = elim (Option-cases (lookup c.action r.table)) [
        | inl e ↦
            handle_incoming_missing _ log e (send_error-SendsOnce J total c.message_id _ _ _ log)
        | inr (f, e) ↦
            handle_incoming_found _ f log e
              (table-RepliesOnce J total r ready c.action f e c.message_id c.payload log)
      ]

      -- A text that parses as a Call whose action has a registered handler is answered once, if
      -- the payload reads as the handler's request, the handler does not throw, and whatever is
      -- printed parses. The handler decides the answer: its value is the payload of a CallResult,
      -- its error text the description of an InternalError.
      pub handle_incoming-Reads :
          DumpParses J
          → {Req Conf : Type 0} (from_json : Json → Result Req) (to_json : Conf → Json)
            (h : Req → Result (Expected Conf)) (req : Req) (res : Expected Conf)
          → lookup c.action r.table ≡ some (invoker J (List String) from_json to_json h)
          → from_json c.payload ≡ ok req
          → h req ≡ ok res
          → SendsOnce
              (Reads (answer_frame to_json c.message_id res))
              (handle_incoming J (List String) r frame record_send)
      handle_incoming-Reads total from_json to_json h req res found decoded handled log =
          handle_incoming_found _ _ log found (
            invoker_answers total from_json to_json h req res c.message_id c.payload decoded handled
              log)
