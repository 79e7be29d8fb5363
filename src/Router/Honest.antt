-- ===== src/Router/Honest.antt =====
-- What a stored invoker sends when `dump` may throw, and the frames that are printed.
use ocppwo.Common.{
  ◌≡◌, refl, List, [], String, Result, ok, throws, ◌⊎◌, inl, inr, pos, All, insert-All, Expected,
  unexpected, expected,
}
use ocppwo.Json.{JsonLib, JsonLaws}
use ocppwo.Ocpp.{OcppFrame, call_result, call_error}
use ocppwo.Ocpp.Frames.{to_json_frame}
use ocppwo.Ocpp.RoundTrip.{IsWellTagged, parse_frame-to_json_frame}
use ocppwo.Ocpp.Tagging.{frame_id}
use ocppwo.Router.Effects.{Eff, lift, ◌>>=◌, try_catch}
use ocppwo.Router.{Invoker, Router}
use ocppwo.Router.Sends.{record_send, SentOnce, SendsOrThrows, lift-SendsOrThrows}
use ocppwo.Router.Dispatch.{error_reply, answer, invoker, register_handler}
use ocppwo.Router.Once.{IsAnswer, IsReplyTo}

catch-SendsOrThrows :
    (P : String → Type 0) (m : Eff (List String) (Unit {0}))
    (f : String → Eff (List String) (Unit {0}))
    → SendsOrThrows P m
    → ((what : String) → SendsOrThrows P (f what))
    → SendsOrThrows P (try_catch m f)
catch-SendsOrThrows P m f h k log = elim (h log) [
  | inl (text, p, e) ↦ inl (text, p, rw e)
  | inr (what, e) ↦ rw e (k what log)
]

pub weaken :
    (P Q : String → Type 0) (m : Eff (List String) (Unit {0}))
    → ((text : String) → P text → Q text)
    → SendsOrThrows P m
    → SendsOrThrows Q m
weaken P Q m w h log = elim (h log) [
  | inl (text, p, e) ↦ inl (text, w text p, e)
  | inr thrown ↦ inr thrown
]

module _ (J : JsonLib) where
  open J use {Json, dump, parse, get_string, get_int, at}

  -- What `dump` prints is read back; it may throw.
  abbrev pub DumpReads : Type 0
  DumpReads = (j : Json) (text : String) → dump j ≡ ok text → parse text ≡ ok j

  abbrev pub RepliesOrThrows : Invoker J (List String) → Type 0
  RepliesOrThrows f =
      (id : String) (payload : Json) → SendsOrThrows (IsReplyTo J id) (f id payload record_send)

  -- Every stored invoker sends one reply under the id that it is given, or throws and sends none.
  abbrev pub IsHonest : Router J (List String) → Type 0
  IsHonest r = All (λ e. RepliesOrThrows e.1) r.table

  module _ ⦃L : JsonLaws J⦄ (reads : DumpReads) where
    -- The CallError that `handle_incoming` makes of an exception.
    abbrev pub error_frame : String → OcppFrame Json
    error_frame about = call_error (record {
      message_type_id = pos 4;
      message_id = "";
      error_code = "FormationViolation";
      error_description = about;
      error_details = J.object [];
    })

    -- An answer is sent, or its `dump` throws.
    pub frame-prints :
        (f : OcppFrame Json) (log : List String)
        → IsWellTagged f
        → IsAnswer f
        → SentOnce
            (IsReplyTo J (frame_id f))
            ((lift (dump (to_json_frame J f)) >>= record_send) log)
            log
          ⊎ ((what : String) × (dump (to_json_frame J f) ≡ throws what)
              × ((lift (dump (to_json_frame J f)) >>= record_send) log ≡ (throws what, log)))
    unfolding record_send
    frame-prints f log tag answers = go (dump (to_json_frame J f)) refl
      where
        go :
            (o : Result String)
            → dump (to_json_frame J f) ≡ o
            → SentOnce (IsReplyTo J (frame_id f)) ((lift o >>= record_send) log) log
              ⊎ ((what : String) × (o ≡ throws what)
                  × ((lift o >>= record_send) log ≡ (throws what, log)))
        go (throws what) e = inr (what, refl, refl)
        go (ok text) e = inl (
          text,
          (
            f,
            rw (reads (to_json_frame J f) text e) (parse_frame-to_json_frame J f tag),
            answers,
            refl,
          ),
          refl,
        )

    frame-SendsOrThrows :
        (f : OcppFrame Json)
        → IsWellTagged f
        → IsAnswer f
        → SendsOrThrows (IsReplyTo J (frame_id f)) (lift (dump (to_json_frame J f)) >>= record_send)
    frame-SendsOrThrows f tag answers log = elim (frame-prints f log tag answers) [
      | inl sent ↦ inl sent
      | inr (what, e, thrown) ↦ inr (what, thrown)
    ]

    pub error_reply-SendsOrThrows :
        (id code description : String) (details : Json)
        → SendsOrThrows
            (IsReplyTo J id)
            (lift (dump (error_reply J (List String) id code description details)) >>= record_send)
    unfolding to_json_frame
    error_reply-SendsOrThrows id code description details =
        frame-SendsOrThrows
          (call_error (record {
            message_type_id = pos 4;
            message_id = id;
            error_code = code;
            error_description = description;
            error_details = details;
          }))
          refl tt

    answer-SendsOrThrows :
        {Conf : Type 0} (to_json : Conf → Json) (id : String) (res : Expected Conf)
        → SendsOrThrows (IsReplyTo J id) (answer J (List String) to_json id res record_send)
    unfolding answer to_json_frame
    answer-SendsOrThrows to_json id (expected conf) =
        frame-SendsOrThrows
          (call_result
            (record { message_type_id = pos 3; message_id = id; payload = to_json conf }))
          refl tt
    answer-SendsOrThrows to_json id (unexpected e) =
        error_reply-SendsOrThrows id "InternalError" e (J.object [])

    invoker-RepliesOrThrows :
        {Req Conf : Type 0} (from_json : Json → Result Req) (to_json : Conf → Json)
        (h : Req → Result (Expected Conf))
        → RepliesOrThrows (invoker J (List String) from_json to_json h)
    unfolding invoker
    invoker-RepliesOrThrows from_json to_json h id payload =
        catch-SendsOrThrows _ _ _
          (lift-SendsOrThrows _ (from_json payload) _
            λ req. lift-SendsOrThrows _ (h req) _ λ res. answer-SendsOrThrows to_json id res)
          λ what. error_reply-SendsOrThrows id "FormationViolation" what (J.object [])

    -- Registering a handler keeps a router whose stored invokers reply once or throw, if what is
    -- printed is read back.
    pub register_handler-IsHonest :
        {Req Conf : Type 0} (action : String) (from_json : Json → Result Req)
        (to_json : Conf → Json) (h : Req → Result (Expected Conf)) (r : Router J (List String))
        → IsHonest r
        → IsHonest (register_handler J (List String) action from_json to_json h r)
    unfolding register_handler
    register_handler-IsHonest action from_json to_json h r honest =
        insert-All RepliesOrThrows action _ r.table (invoker-RepliesOrThrows from_json to_json h)
          honest
