-- ===== src/TestServer/Tests.antt =====
-- The test server on concrete runs.
use ocppwo.Common.{
  ◌≡◌, refl, true, false, some, List, [], ◌∷◌, ◌++◌, String, ok, ◌>>=◌, pos, negsuc, arith, eq_iff,
  get_elem?,
}
use ocppwo.Json.Coded.{coded_json, encode, decode, tally, ones, unpair, repair}
use ocppwo.Metrics.{no_metrics}
use ocppwo.Metrics.Ops.{server_frames_received_total_increment}
use ocppwo.Ocpp.{Call, call}
use ocppwo.Ocpp.Frames.{parse_frame}
use ocppwo.TestServer.{connect, reconnect, send, TestServer, new_test_server}
use ocppwo.TestServer.Ops.{send_stored_reply_for}
use ocppwo.TestServer.Messages.{take_reply, process, on_message}
use ocppwo.TestServer.Runs.{Input, client_accepted, opened, message, policy_set, run}
use ocppwo.TestServer.Telemetry.{accept_types}
use ocppwo.TestServer.Beats.{on_message-process}
use ocppwo.TestServer.Accepts.{run-first_client}
use ocppwo.TestServer.Replies.{take_reply-send_stored_reply_for}

abbrev fresh : TestServer
fresh = new_test_server no_metrics

-- Two clients, of which the first sends a message under the policy of the first message.
abbrev story : List Input
story =
    policy_set (record {
      close_after_handshake = false;
      close_after_first_message = true;
      close_after_ms = negsuc 0;
    })
    ∷ client_accepted false 1
    ∷ opened 0
    ∷ message 0 "no frame" 2
    ∷ client_accepted false 3
    ∷ []

run-first_client_example :
    let types = accept_types (run coded_json fresh story).events in
    (get_elem? types 0 ≡ some reconnect) × (get_elem? types 1 ≡ some connect)
run-first_client_example = run-first_client coded_json no_metrics story (omega arith)

on_message-process_example :
    on_message coded_json 1 "hello" 4 (run coded_json fresh story)
    ≡ process coded_json "hello" 4 (record (run coded_json fresh story) {
      received = (run coded_json fresh story).received ++ record { text = "hello"; t = 4 } ∷ [];
      metrics = server_frames_received_total_increment (run coded_json fresh story).metrics;
    })
on_message-process_example = on_message-process coded_json no_metrics story 1 "hello" 4

abbrev request : String → Call String
request action = record {
  message_type_id = pos 2;
  message_id = "m1";
  action = action;
  payload = coded_json.object [];
}

abbrev text_of : String → String
text_of action = coded_json.array (
    coded_json.of_int (pos 2)
    ∷ coded_json.of_string "m1"
    ∷ coded_json.of_string action
    ∷ coded_json.object []
    ∷ [])

request_parses :
    (coded_json.parse (text_of "Authorize") >>= parse_frame coded_json)
    ≡ ok (call (request "Authorize"))
unfolding parse_frame encode decode tally ones unpair repair
request_parses = refl

beat_parses :
    (coded_json.parse (text_of "HeartBeat") >>= parse_frame coded_json)
    ≡ ok (call (request "HeartBeat"))
unfolding parse_frame encode decode tally ones unpair repair
beat_parses = refl

-- A heartbeat was received while replies are held back, and another reply is stored.
abbrev holding : TestServer
holding = record fresh {
  manual_replies = true;
  session = some 0;
  received = record { text = text_of "HeartBeat"; t = 6 } ∷ [];
  stored_replies = record { message_id = "m0"; reply_text = "earlier" } ∷ [];
}

take_reply-send_stored_reply_for_example :
    let held = (take_reply coded_json "answer" holding).1 in
    let asked = send_stored_reply_for "m1" held in
    (held.asked ≡ holding.asked)
    × (asked.0 ≡ true)
    × (asked.1.asked ≡ holding.asked ++ send 0 "answer" ∷ [])
    × (asked.1.stored_replies ≡ holding.stored_replies)
take_reply-send_stored_reply_for_example =
    take_reply-send_stored_reply_for coded_json "answer" (request "HeartBeat")
      (record { text = text_of "HeartBeat"; t = 6 }) 0 holding refl refl refl beat_parses
      ((λ e. cc ((eq_iff "m0" "m1").1 e)), tt)
