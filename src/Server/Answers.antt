-- ===== src/Server/Answers.antt =====
-- A call on its way through the server and back to the session that sent it.
use Prim.Native.String.{◌++◌ as joined}
use ocppwo.Common.{
  ◌≡◌, refl, sym, ap, ◌∙◌, true, false, none, some, List, [], ◌∷◌, ◌++◌, String, Result, ok, throws,
  pos, arith, lookup, erase,
}
use ocppwo.Common.{◌>>=◌ as bind}
use ocppwo.Json.{JsonLib, JsonLaws}
use ocppwo.Ocpp.{
  OcppPayload, BootNotification, boot_notification, authorize, heartbeat, heart_beat, CallResult,
  call, call_result,
}
use ocppwo.Ocpp.Calls.{create_call}
use ocppwo.Ocpp.Frames.{parse_frame, to_json_frame, to_json_call}
use ocppwo.Ocpp.Handlers.{
  is_incomplete, accepted, boot_handler, authorize_handler, heartbeat_handler,
}
use ocppwo.Ocpp.RoundTrip.{parse_frame-to_json_frame}
use ocppwo.Ocpp.PayloadTrip.{
  from_json_boot_response-to_json, from_json_authorize_response-to_json,
  from_json_heartbeat_response-to_json,
}
use ocppwo.Ocpp.Payloads.{
  to_json_boot_response, to_json_authorize_response, to_json_heartbeat_response,
}
use ocppwo.Router.Effects.{lift, ◌>>=◌}
use ocppwo.Router.Once.{DumpParses}
use ocppwo.Router.Reply.{Reads}
use ocppwo.Router.Route.{server_router, served, route-create_call, boot_handler_lem}
use ocppwo.Server.Reads.{reply, call_handler, read_text, route_call}
use ocppwo.Session.{Session, Callback, Pending, deliver, cancel_timeout, before}
use ocppwo.Session.Calls.{request_of, react, call_back}
use ocppwo.Session.Frames.{
  on_message, on_frame, parsed_message, result_found, checked, validate_payload,
}

-- A boot notification with both fields, or another payload.
abbrev pub IsComplete : OcppPayload → Type 0
IsComplete (boot_notification b) = is_incomplete b ≡ false
IsComplete _ = Unit

module _ (J : JsonLib) where
  open J use {Json, parse, dump}

  -- The server of `main`.
  abbrev pub server_reads : String → List String → Result (Unit {0}) × List String
  server_reads text = read_text J (some (route_call J (server_router J (List String)))) text

  module _ ⦃L : JsonLaws J⦄ where
    pub served-result :
        (id : String) (p : OcppPayload)
        → IsComplete p
        → (r : CallResult Json) × (served J (List String) id p ≡ ok (call_result r))
          × (r.message_id ≡ id)
          × (r.message_type_id ≡ pos 3)
          × (validate_payload J (request_of p) r.payload ≡ ok tt)
    unfolding boot_handler authorize_handler heartbeat_handler validate_payload
    served-result id (boot_notification b) h = (
      record {
        message_type_id = pos 3;
        message_id = id;
        payload = to_json_boot_response J (accepted (pos 5));
      },
      ground (arith, h),
      refl,
      refl,
      rw (from_json_boot_response-to_json J (accepted (pos 5))) refl,
    )
    served-result id (authorize a) h = (
      record {
        message_type_id = pos 3;
        message_id = id;
        payload = to_json_authorize_response J (record { id_tag_info = joined a.id_tag "OK" });
      },
      refl,
      refl,
      refl,
      rw (from_json_authorize_response-to_json J (record { id_tag_info = joined a.id_tag "OK" }))
          refl,
    )
    served-result id (heartbeat heart_beat) h = (
      record {
        message_type_id = pos 3;
        message_id = id;
        payload = to_json_heartbeat_response J (record { current_time = "2025-07-16T12:00:00Z" });
      },
      refl,
      refl,
      refl,
      rw (from_json_heartbeat_response-to_json J (record { current_time = "2025-07-16T12:00:00Z" }))
          refl,
    )

    tagged :
        (id : String) (p : OcppPayload)
        → parse_frame J (to_json_call J (create_call J id p)) ≡ ok (call (create_call J id p))
    unfolding to_json_frame create_call
    tagged id (boot_notification b) =
        parse_frame-to_json_frame J (call (create_call J id (boot_notification b))) refl
    tagged id (authorize a) =
        parse_frame-to_json_frame J (call (create_call J id (authorize a))) refl
    tagged id (heartbeat heart_beat) =
        parse_frame-to_json_frame J (call (create_call J id (heartbeat heart_beat))) refl

    pub read_call :
        (id : String) (p : OcppPayload) (frame : String)
        → parse frame ≡ ok (to_json_call J (create_call J id p))
        → (log : List String)
        → server_reads frame log ≡ (lift (served J (List String) id p) >>= reply J) log
    unfolding read_text call_handler route_call to_json_frame
    read_call id p frame e log = go
      where
        parsed :
            parse_frame J (to_json_call J (create_call J id p)) ≡ ok (call (create_call J id p))
        parsed = tagged id p

        go : server_reads frame log ≡ (lift (served J (List String) id p) >>= reply J) log
        go = rw (e, parsed, route-create_call J (List String) id p) refl

    -- The session's answer to a text that reads as a valid result for a pending call.
    pub on_message-result :
        (id text : String) (p : Pending) (r : CallResult Json) (s : Session)
        → Reads J (call_result r) text
        → r.message_id ≡ id
        → lookup id s.pending ≡ some p
        → validate_payload J p.request r.payload ≡ ok tt
        → on_message J text s
          ≡ record (before (cancel_timeout id ∷ []) (
              call_back J id p.resolve
                (call_result r)
                (record s { pending = erase id s.pending }))) { thrown = none }
    unfolding on_message parsed_message on_frame result_found checked
    on_message-result id text p r s reads same found valid =
        rw (reads, ← same) (rw (ap (λ k. lookup k s.pending) same ∙ found, valid) refl)

    -- If whatever is printed parses: a payload that the client sends as a call, complete if it is
    -- a boot notification, makes the server post exactly one text. When the session, in which the
    -- call is pending with a callback, gets this text, it cancels the timeout and invokes the
    -- callback with a CallResult that holds what the server's handler gave for the payload, and
    -- then does what that callback asks for.
    pub server_answers :
        DumpParses J
        → (id : String) (p : OcppPayload) (cb : Callback) (s : Session) (frame : String)
          (log : List String)
        → IsComplete p
        → dump (to_json_call J (create_call J id p)) ≡ ok frame
        → lookup id s.pending ≡ some (record { resolve = some cb; request = request_of p })
        → (text : String) × (server_reads frame log ≡ (ok tt, log ++ text ∷ []))
          × ((r : CallResult Json) × (served J (List String) id p ≡ ok (call_result r))
              × ((on_message J text s).effects
                  ≡ cancel_timeout id
                    ∷ deliver id cb (call_result r)
                    ∷ (react J cb
                        (call_result r)
                        (record s { pending = erase id s.pending })).effects))
    unfolding reply call_back
    server_answers total id p cb s frame log complete sent found =
        let (r, gives, same, tag, valid) = served-result id p complete in
        let (frame', d, q) = total (to_json_call J (create_call J id p)) in
        let (text, d', q') = total (to_json_frame J (call_result r)) in
        (
          text,
          read_call id p frame (ap (λ o. bind o parse) (sym sent ∙ d) ∙ q) log
              ∙ rw (gives, d') refl,
          (
            r,
            gives,
            ap (λ o. o.effects)
                (on_message-result id text (record { resolve = some cb; request = request_of p }) r
                  s (rw q' (parse_frame-to_json_frame J (call_result r) tag)) same found valid),
          ),
        )

    -- A boot notification with an empty field, sent as a call, makes the server's read handler
    -- throw, and the call is not answered.
    pub server_throws :
        (id : String) (b : BootNotification) (frame : String) (log : List String)
        → parse frame ≡ ok (to_json_call J (create_call J id (boot_notification b)))
        → is_incomplete b ≡ true
        → (what : String) × (server_reads frame log ≡ (throws what, log))
    server_throws id b frame log e h =
        let (what, q) = boot_handler_lem J (List String) b id in
        (what, read_call id (boot_notification b) frame e log ∙ rw q (rw h refl))
