-- ===== src/Router/Sending.antt =====
-- What the router sends for an incoming frame when `dump` may throw: the JSON library prints no text
-- that is not valid UTF-8, and the error replies of `handle_incoming` and of the stored invokers
-- quote the what() of an exception, which can hold such a text (half a character of the frame).
use ocppwo.Common.{
  ◌≡◌, refl, List, [], String, throws, Option, none, some, ◌⊎◌, inl, inr, ℤ, Bool-cases, lookup,
  lookup-All, ltb, ◌==◌, ◌||◌, not, is_int,
}
use ocppwo.Common.{◌>>=◌ as bindr}
use ocppwo.Json.{JsonLib, JsonLaws}
use ocppwo.Ocpp.Frames.{to_json_frame}
use ocppwo.Router.Effects.{Eff, lift, ◌>>=◌}
use ocppwo.Router.{Invoker, Router}
use ocppwo.Router.Sends.{record_send, SentOnce, SendsOrThrows, lift-SendsOrThrows}
use ocppwo.Router.Dispatch.{error_reply, dispatch, by_type, by_shape, send_error, handle_incoming}
use ocppwo.Router.Once.{IsReplyTo, IsReply}
use ocppwo.Router.Honest.{
  weaken, DumpReads, RepliesOrThrows, IsHonest, frame-prints, error_frame,
  error_reply-SendsOrThrows,
}

module _ (J : JsonLib) where
  open J use {Json, dump, parse, get_string, get_int, at}

  -- What `handle_incoming` does inside its `try`.
  abbrev pub tried : Router J (List String) → String → Eff (List String) (Unit {0})
  tried r frame = lift (parse frame) >>= λ arr. by_shape J (List String) r arr record_send

  -- An exception left the `try` before anything was sent, and `dump` throws on the error reply that
  -- quotes it; that exception leaves `handle_incoming`, and nothing is sent.
  abbrev pub FailsToReport : Router J (List String) → String → List String → Type 0
  FailsToReport r frame log =
      (about what : String) × (tried r frame log ≡ (throws about, log))
      × (dump (error_reply J (List String) "" "FormationViolation" about (J.object []))
          ≡ throws what)
      × (handle_incoming J (List String) r frame record_send log ≡ (throws what, log))

  module _ ⦃L : JsonLaws J⦄ (reads : DumpReads J) where
    some-IsReply :
        (id : String) (m : Eff (List String) (Unit {0}))
        → SendsOrThrows (IsReplyTo J id) m
        → SendsOrThrows (IsReply J) m
    some-IsReply id m = weaken (IsReplyTo J id) (IsReply J) m (λ text p. (id, p))

    error-IsReply :
        (id code description : String) (details : Json)
        → SendsOrThrows
            (IsReply J)
            (send_error J (List String) id code description details record_send)
    unfolding send_error
    error-IsReply id code description details =
        some-IsReply id _ (error_reply-SendsOrThrows J reads id code description details)

    dispatch-SendsOrThrows :
        (o : Option (Invoker J (List String))) (arr : Json) (action : String)
        → ((f : Invoker J (List String)) → o ≡ some f → RepliesOrThrows J f)
        → SendsOrThrows (IsReply J) (dispatch J (List String) o arr action record_send)
    unfolding dispatch
    dispatch-SendsOrThrows (some f) arr action h =
        lift-SendsOrThrows _ (at arr 3) _ λ payload. some-IsReply _ _ (h f refl _ payload)
    dispatch-SendsOrThrows none arr action h =
        lift-SendsOrThrows _ (bindr (at arr 1) get_string) _ λ id. error-IsReply id _ _ _

    module _ (r : Router J (List String)) (honest : IsHonest J r) where
      by_type-SendsOrThrows :
          (arr : Json) (type_id : ℤ)
          → SendsOrThrows (IsReply J) (by_type J (List String) r arr type_id record_send)
      unfolding by_type
      by_type-SendsOrThrows arr type_id = elim (Bool-cases (is_int type_id 2)) [
        | inr e ↦ rw e (error-IsReply _ _ _ _)
        | inl e ↦ elim (Bool-cases (J.size arr == 4)) [
          | inr e' ↦ rw (e, e') (error-IsReply _ _ _ _)
          | inl e' ↦
              rw (e, e')
                (lift-SendsOrThrows _ (bindr (at arr 2) get_string) _ λ action.
                  dispatch-SendsOrThrows (lookup action r.table) arr action
                    λ f found. lookup-All (RepliesOrThrows J) action r.table honest found)
        ]
      ]

      by_shape-SendsOrThrows :
          (arr : Json) → SendsOrThrows (IsReply J) (by_shape J (List String) r arr record_send)
      unfolding by_shape
      by_shape-SendsOrThrows arr = elim (Bool-cases (not (J.is_array arr) || ltb (J.size arr) 3)) [
        | inl e ↦ rw e (error-IsReply _ _ _ _)
        | inr e ↦ rw e (
            lift-SendsOrThrows _ (bindr (at arr 0) get_int) _
              λ type_id. by_type-SendsOrThrows arr type_id)
      ]

      -- Whatever text comes in, if what `dump` prints is read back and every stored invoker either
      -- replies once or throws and sends nothing: `handle_incoming` returns, having sent exactly one
      -- text, a CallResult or a CallError; or an exception left its `try` before anything was sent,
      -- and `dump` throws on the error reply that quotes it: then nothing is sent, and the exception
      -- of `dump` leaves `handle_incoming`.
      pub handle_incoming-SendsOrFails :
          (frame : String) (log : List String)
          → SentOnce (IsReply J) (handle_incoming J (List String) r frame record_send log) log
            ⊎ FailsToReport r frame log
      unfolding handle_incoming send_error to_json_frame
      handle_incoming-SendsOrFails frame log =
          elim (lift-SendsOrThrows (IsReply J) (parse frame)
            (λ arr. by_shape J (List String) r arr record_send) by_shape-SendsOrThrows log) [
              | inl (text, p, e) ↦ inl (text, p, rw e)
              | inr (about, e) ↦
                  elim (frame-prints J reads (error_frame J reads about) log refl tt) [
                    | inl (text, p, e') ↦ inl (text, ("", p), rw e e')
                    | inr (what, d, thrown) ↦ inr (about, what, e, d, rw e thrown)
                  ]
            ]
