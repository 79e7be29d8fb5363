-- ===== src/Router/Once.antt =====
-- What a stored invoker sends: one reply, under the id that it is given.
use ocppwo.Common.{
  ◌≡◌, refl, List, [], String, Result, ok, some, inl, pos, All, lookup, lookup-All, insert-All,
  Expected, unexpected, expected,
}
use ocppwo.Common.{◌>>=◌ as bindr}
use ocppwo.Json.{JsonLib, JsonLaws}
use ocppwo.Ocpp.{OcppFrame, call, call_result, call_error}
use ocppwo.Ocpp.Frames.{parse_frame, to_json_frame}
use ocppwo.Ocpp.RoundTrip.{IsWellTagged, parse_frame-to_json_frame}
use ocppwo.Ocpp.Tagging.{frame_id}
use ocppwo.Router.Effects.{lift, ◌>>=◌}
use ocppwo.Router.{Invoker, Router}
use ocppwo.Router.Sends.{
  record_send, SendsOnce, try_catch-SendsOnce, lift-SendsOrThrows, lift_record-SendsOnce,
}
use ocppwo.Router.Dispatch.{
  error_reply, result_reply, answer, invoker, register_handler, send_error,
}

-- A CallResult or a CallError.
abbrev pub IsAnswer : {Json : Type 0} → OcppFrame Json → Type 0
IsAnswer (call c) = ⊥
IsAnswer (call_result c) = Unit
IsAnswer (call_error c) = Unit

module _ (J : JsonLib) where
  open J use {Json, dump, parse, get_string, get_int, at}

  -- The text is an OCPP answer with this message id.
  abbrev pub IsReplyTo : String → String → Type 0
  IsReplyTo id text =
      (f : OcppFrame Json) × (bindr (parse text) (parse_frame J) ≡ ok f)
      × IsAnswer f
      × (frame_id f ≡ id)

  -- It is an OCPP answer.
  abbrev pub IsReply : String → Type 0
  IsReply text = (id : String) × IsReplyTo id text

  -- Every JSON value prints and is read back from its text. The library documents this for values
  -- whose texts are valid UTF-8; `dump` throws on others, which Router.Sending allows for.
  abbrev pub DumpParses : Type 0
  DumpParses = (j : Json) → (text : String) × (dump j ≡ ok text) × (parse text ≡ ok j)

  abbrev pub RepliesOnce : Invoker J (List String) → Type 0
  RepliesOnce f =
      (id : String) (payload : Json) → SendsOnce (IsReplyTo id) (f id payload record_send)

  -- Every stored invoker replies once, under the id that it is given.
  abbrev pub IsReady : Router J (List String) → Type 0
  IsReady r = All (λ e. RepliesOnce e.1) r.table

  module _ ⦃L : JsonLaws J⦄ (total : DumpParses) where
    frame-SendsOnce :
        (f : OcppFrame Json)
        → IsWellTagged f
        → IsAnswer f
        → SendsOnce (IsReplyTo (frame_id f)) (lift (dump (to_json_frame J f)) >>= record_send)
    frame-SendsOnce f tag answers =
        let (text, e, e') = total (to_json_frame J f) in
        lift_record-SendsOnce _ _ text e
          (f, rw e' (parse_frame-to_json_frame J f tag), answers, refl)

    error_reply-SendsOnce :
        (id code description : String) (details : Json)
        → SendsOnce
            (IsReplyTo id)
            (lift (dump (error_reply J (List String) id code description details)) >>= record_send)
    unfolding to_json_frame
    error_reply-SendsOnce id code description details =
        frame-SendsOnce
          (call_error (record {
            message_type_id = pos 4;
            message_id = id;
            error_code = code;
            error_description = description;
            error_details = details;
          }))
          refl tt

    result_reply-SendsOnce :
        (id : String) (conf : Json)
        → SendsOnce
            (IsReplyTo id)
            (lift (dump (result_reply J (List String) id conf)) >>= record_send)
    unfolding to_json_frame
    result_reply-SendsOnce id conf =
        frame-SendsOnce
          (call_result (record { message_type_id = pos 3; message_id = id; payload = conf })) refl
          tt

    pub send_error-SendsOnce :
        (id code description : String) (details : Json)
        → SendsOnce
            (IsReplyTo id)
            (send_error J (List String) id code description details record_send)
    unfolding send_error
    send_error-SendsOnce id code description details =
        error_reply-SendsOnce id code description details

    answer-SendsOnce :
        {Conf : Type 0} (to_json : Conf → Json) (id : String) (res : Expected Conf)
        → SendsOnce (IsReplyTo id) (answer J (List String) to_json id res record_send)
    unfolding answer
    answer-SendsOnce to_json id (expected conf) = result_reply-SendsOnce id (to_json conf)
    answer-SendsOnce to_json id (unexpected e) =
        error_reply-SendsOnce id "InternalError" e (J.object [])

    -- What `register_handler` stores sends exactly one reply to each call, under the call's id.
    pub invoker-RepliesOnce :
        {Req Conf : Type 0} (from_json : Json → Result Req) (to_json : Conf → Json)
        (h : Req → Result (Expected Conf))
        → RepliesOnce (invoker J (List String) from_json to_json h)
    unfolding invoker
    invoker-RepliesOnce from_json to_json h id payload =
        try_catch-SendsOnce _ _ _
          (lift-SendsOrThrows _ (from_json payload) _ λ req.
            lift-SendsOrThrows _ (h req) _ λ res log. inl (answer-SendsOnce to_json id res log))
          λ what. error_reply-SendsOnce id "FormationViolation" what (J.object [])

    -- Registering a handler keeps the router ready, that is every stored invoker answering each
    -- call once, if whatever is printed parses.
    pub register_handler-IsReady :
        {Req Conf : Type 0} (action : String) (from_json : Json → Result Req)
        (to_json : Conf → Json) (h : Req → Result (Expected Conf)) (r : Router J (List String))
        → IsReady r
        → IsReady (register_handler J (List String) action from_json to_json h r)
    unfolding register_handler
    register_handler-IsReady action from_json to_json h r ready =
        insert-All RepliesOnce action _ r.table (invoker-RepliesOnce from_json to_json h) ready

    module _ (r : Router J (List String)) (ready : IsReady r) where
      pub table-RepliesOnce :
          (action : String) (f : Invoker J (List String))
          → lookup action r.table ≡ some f
          → RepliesOnce f
      table-RepliesOnce action f found = lookup-All RepliesOnce action r.table ready found
