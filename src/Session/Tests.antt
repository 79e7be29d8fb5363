-- ===== src/Session/Tests.antt =====
-- The session on concrete runs.
use ocppwo.Common.{
  ◌≡◌, refl, true, none, some, List, [], ◌∷◌, ◌++◌, String, ◌⊎◌, pos, All, Any, lookup, erase,
  emplace, if◌then◌else◌,
}
use ocppwo.Json.Coded.{coded_json, encode, decode, tally, ones, unpair, repair}
use ocppwo.Metrics.{no_metrics}
use ocppwo.Ocpp.{OcppFrame, call_result, authorize, heartbeat, heart_beat, authorize_request}
use ocppwo.Session.{Session, ready, user, new_session}
use ocppwo.Ocpp.Frames.{parse_frame, to_json_call}
use ocppwo.Ocpp.Calls.{create_call}
use ocppwo.Ocpp.Payloads.{from_json_boot_response}
use ocppwo.Session.Calls.{
  on_transport_connected, send_boot, send_call, store, start_timer, call_back, react, boot_result,
}
use ocppwo.Session.Frames.{
  on_frame, on_message, unmatched, parsed_message, result_found, checked, validate_payload,
}
use ocppwo.Session.Events.{
  Event, call_sent, message_received, connection_closed, timeout_expired, transport_connected, step,
  run,
}
use ocppwo.Session.Balance.{delivered}
use ocppwo.Session.Once.{issued_by, run-connection_closed}
use ocppwo.Session.Boot.{IsAccepted, run-ready}
use ocppwo.Session.Life.{Life, deliveries, tellings}
use ocppwo.Session.Trace.{trace}
use ocppwo.Session.Refine.{run-Life}
use ocppwo.Session.Reply.{IsFor, is_call, on_frame-IsFor, on_frame_twice}

abbrev fresh : Session
fresh = new_session no_metrics true

-- Two calls are sent, one times out, and a late reply comes.
abbrev story : List Event
story =
    call_sent "id-1" (authorize (record { id_tag = "ABC" })) (some (user 1)) 10
    ∷ call_sent "id-2" (heartbeat heart_beat) (some (user 2)) 10
    ∷ timeout_expired "id-1"
    ∷ []

run-connection_closed_example :
    (delivered "id-1" (run coded_json fresh (story ++ connection_closed ∷ [])).1
      ≡ issued_by coded_json "id-1" fresh story)
    × ((run coded_json fresh (story ++ connection_closed ∷ [])).0.pending ≡ [])
run-connection_closed_example = run-connection_closed coded_json "id-1" no_metrics true story

-- The boot request is answered by an accepted boot.
abbrev accepted : String
accepted = coded_json.array (
    coded_json.of_int (pos 3)
    ∷ coded_json.of_string "b1"
    ∷ coded_json.object (
        ("currentTime", coded_json.of_string "now")
        ∷ ("interval", coded_json.of_int (pos 9))
        ∷ ("status", coded_json.of_string "Accepted")
        ∷ [])
    ∷ [])

abbrev booted : List Event
booted = transport_connected "b1" ∷ message_received accepted ∷ []

booted_ready : (run coded_json fresh booted).0.state ≡ ready
unfolding run step on_transport_connected send_boot send_call store start_timer emplace lookup erase
    on_message parsed_message on_frame result_found checked validate_payload call_back react
    boot_result parse_frame from_json_boot_response to_json_call create_call encode decode tally
    ones unpair repair
booted_ready = refl

run-ready_example :
    (fresh.state ≡ ready) ⊎ Any (IsAccepted coded_json) (run coded_json fresh booted).1
run-ready_example = run-ready coded_json fresh booted booted_ready

-- Two calls wait for a reply.
abbrev waiting_two : Session
waiting_two = record fresh {
  pending =
      ("id-1", record { resolve = some (user 1); request = authorize_request })
      ∷ ("id-2", record { resolve = none; request = authorize_request })
      ∷ [];
}

-- A reply to the first call whose payload is no response to it.
abbrev wrong : OcppFrame String
wrong =
    call_result
      (record { message_type_id = pos 3; message_id = "id-1"; payload = coded_json.of_string "no" })

on_frame-IsFor_example :
    All (IsFor coded_json wrong waiting_two) (on_frame coded_json wrong waiting_two).effects
on_frame-IsFor_example = on_frame-IsFor coded_json wrong waiting_two

run-Life_example :
    Life String "id-1" none
      (trace coded_json "id-1" fresh story)
      (lookup "id-1" (run coded_json fresh story).0.pending)
    × (tellings (trace coded_json "id-1" fresh story)
        ≡ deliveries "id-1" (run coded_json fresh story).1)
unfolding lookup
run-Life_example = run-Life coded_json "id-1" fresh story tt

on_frame_twice_example :
    let once = (on_frame coded_json wrong waiting_two).session in
    ((on_frame coded_json wrong once).effects ≡ [])
    × ((on_frame coded_json wrong once).session
        ≡ (if is_call wrong then once else unmatched coded_json once))
on_frame_twice_example = on_frame_twice coded_json wrong waiting_two
