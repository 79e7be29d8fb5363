-- ===== src/TestServer/Messages.antt =====
-- The callback of `on_message`, the handlers of boot notifications, and where the replies go.
use ocppwo.Common.{
  ℕ, Bool, true, false, ◌&&◌, Option, none, some, List, [], ◌∷◌, ◌++◌, String, ◌==◌, str_eq, length,
  if◌then◌else◌, Result, ok, ℤ, Expected, expected, unexpected,
}
use ocppwo.Common.{◌>>=◌ as bind}
use ocppwo.Json.{JsonLib}
use ocppwo.Metrics.Ops.{
  server_frames_received_total_increment, server_calls_received_total_increment,
  server_replies_sent_total_increment,
}
use ocppwo.Ocpp.{
  BootNotification, BootNotificationResponse, Call, OcppFrame, call, call_result, call_error,
}
use ocppwo.Ocpp.Frames.{parse_frame}
use ocppwo.Ocpp.Payloads.{
  from_json_boot, from_json_authorize, from_json_heartbeat, to_json_boot_response,
  to_json_authorize_response, to_json_heartbeat_response,
}
use ocppwo.Ocpp.Handlers.{is_incomplete, accepted, authorize_handler_v2, heartbeat_handler_v2}
use ocppwo.Router.{Router}
use ocppwo.Router.Effects.{Eff, lift, ◌>>=◌}
use ocppwo.Router.Dispatch.{register_handler, handle_incoming}
use ocppwo.TestServer.{Frame, boot_accepted, first_heart_beat, close_session, send, TestServer, ask}
use ocppwo.TestServer.Ops.{record_event}

-- TestBootNotificationHandler_v2, on the interval that is set
unfoldable pub boot_handler_v2 : ℤ → BootNotification → Expected BootNotificationResponse
boot_handler_v2 interval b =
    if is_incomplete b then unexpected "payload..." else expected (accepted interval)

abbrev pub last : List Frame → Option Frame
last [] = none
last (f ∷ []) = some f
last (f ∷ g ∷ fs) = last (g ∷ fs)

module _ (J : JsonLib) where
  open J use {Json, parse}

  -- What the constructor registers for `handle_incoming`; its boot handler reads the interval when
  -- it is called.
  unfoldable pub test_router : ℤ → Router J TestServer
  unfolding boot_handler_v2
  test_router interval =
      register_handler J TestServer "HeartBeat" (from_json_heartbeat J)
        (to_json_heartbeat_response J) (λ h. ok (heartbeat_handler_v2 h))
        (register_handler J TestServer "Authorize" (from_json_authorize J)
          (to_json_authorize_response J) (λ a. ok (authorize_handler_v2 a))
          (register_handler J TestServer "BootNotification" (from_json_boot J)
            (to_json_boot_response J) (λ b. ok (boot_handler_v2 interval b))
            (record { handler_map = []; table = [] })))

  -- The reply goes to the session of the moment, which there is since the first client.
  unfoldable pub send_now : Option ℕ → String → TestServer → TestServer
  send_now none reply s = s
  send_now (some n) reply s = record (ask (send n reply) s) {
    metrics = server_replies_sent_total_increment s.metrics;
  }

  -- The reply is kept under the id of the last call received; exceptions are swallowed.
  unfoldable pub keep : Result (OcppFrame Json) → String → TestServer → TestServer
  keep (ok (call c)) reply s = record s {
    received_call_ids = s.received_call_ids ++ c.message_id ∷ [];
    stored_replies =
        s.stored_replies ++ record { message_id = c.message_id; reply_text = reply } ∷ [];
  }
  keep _ reply s = s

  unfoldable pub keep_for : Option Frame → String → TestServer → TestServer
  unfolding keep
  keep_for none reply s = s
  keep_for (some f) reply s = keep (bind (parse f.text) (parse_frame J)) reply s

  -- The callback given to `handle_incoming`.
  unfoldable pub take_reply : String → Eff TestServer (Unit {0})
  unfolding send_now keep_for
  take_reply reply s = (
    ok tt,
    if s.manual_replies then keep_for (last s.received) reply s else send_now s.session reply s,
  )

  -- A heartbeat, and the event of the first on this connection.
  unfoldable pub note_heartbeat : String → ℕ → TestServer → TestServer
  unfolding record_event
  note_heartbeat text now s =
      let beaten = record s { heartbeats = s.heartbeats ++ record { text = text; t = now } ∷ [] } in
      if length beaten.heartbeats == 1 then record_event first_heart_beat now beaten else beaten

  unfoldable pub note_boot : Call Json → ℕ → TestServer → TestServer
  unfolding record_event
  note_boot c now s = record_event boot_accepted now (record s { last_boot_msg_id = c.message_id })

  -- What is recorded of a call, and whether the router gets it.
  unfoldable pub note_call : Call Json → String → ℕ → TestServer → Bool × TestServer
  unfolding note_heartbeat note_boot
  note_call c text now s =
      let counted = record s { metrics = server_calls_received_total_increment s.metrics } in
      if str_eq c.action "HeartBeat"
      then (true, note_heartbeat text now counted)
      else if str_eq c.action "BootNotification"
      then (true, note_boot c now counted)
      else if str_eq c.action "Authorize"
      then (false, counted)
      else if str_eq c.action "Ping"
      then (false, counted)
      else (true, counted)

  unfoldable pub note : OcppFrame Json → String → ℕ → Eff TestServer Bool
  unfolding note_call
  note (call c) text now s = let (go_on, s') = note_call c text now s in (ok go_on, s')
  note (call_result r) text now s = (ok true, s)
  note (call_error e) text now s = (ok true, s)

  unfoldable pub to_router : Bool → String → Eff TestServer (Unit {0})
  unfolding take_reply test_router
  to_router false text s = (ok tt, s)
  to_router true text s =
      handle_incoming J TestServer (test_router s.heartbeat_interval) text take_reply s

  -- A message that is not cut off by the close policy.
  unfoldable pub process : String → ℕ → Eff TestServer (Unit {0})
  unfolding note to_router
  process text now = do
    f ← lift (bind (parse text) (parse_frame J))
    go_on ← note f text now
    to_router go_on text

  -- The callback of `on_message` of the session `n`.
  unfoldable pub on_message : ℕ → String → ℕ → Eff TestServer (Unit {0})
  unfolding process
  on_message n text now s =
      if s.close_policy.close_after_first_message && s.first_message_seen
      then (ok tt, ask (close_session n) (record s { first_message_seen = true }))
      else process text now (record s {
        received = s.received ++ record { text = text; t = now } ∷ [];
        metrics = server_frames_received_total_increment s.metrics;
      })
