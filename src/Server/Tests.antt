-- ===== src/Server/Tests.antt =====
-- The server on concrete inputs.
use ocppwo.Common.{
  ℕ, none, false, ◌≤◌, ◌+◌, arith, ◌≡◌, refl, true, List, [], ◌∷◌, ◌++◌, String, ok, some, lookup,
  insert, erase, length, All,
}
use ocppwo.Json.Coded.{coded_json, coded_laws, decode, encode, ones, tally}
use ocppwo.Metrics.{no_metrics}
use ocppwo.Ocpp.{
  BootNotification, boot_notification, OcppPayload, CallResult, call_result, boot_request,
}
use ocppwo.Ocpp.Calls.{create_call}
use ocppwo.Ocpp.Frames.{to_json_call, parse_frame}
use ocppwo.Router.Route.{served, server_router}
use ocppwo.Router.Dispatch.{route}
use ocppwo.Ocpp.Handlers.{boot_handler}
use ocppwo.Ocpp.Payloads.{from_json_boot}
use ocppwo.Server.{WsServerSession, new_server_session, connected}
use ocppwo.Server.Answers.{server_reads, server_answers}
use ocppwo.Server.Clients.{Serves, replies, run-replies}
use ocppwo.Server.Crash.{taken, run-accepting, run-server_throws}
use ocppwo.Server.Ownership.{IsLeaked}
use ocppwo.Server.Main.{
  Main, new_main, new_connection, Event as MainEvent, accepted as socket_taken, happened,
  handshake_ended, text_came, send_ran, write_completed, read_failed, run as main_run,
  step as main_step, step_after, handle, handle_at, connection_step, socket_accepted,
}
use ocppwo.Server.Reads.{set_on_message, read_text, call_handler, route_call}
use ocppwo.Server.Order.{
  Line, Event, send_runs, write_completes, run, accepted, outbound, IsBusy, completions,
  run-written, run-drained,
}
use ocppwo.Session.{Session, boot_reply, new_session, cancel_timeout, deliver}
use ocppwo.Session.Calls.{react}
use ocppwo.Session.Frames.{on_message}

abbrev fresh : Line ℕ
fresh = record { session = new_server_session; started = [] }

abbrev three_sends : List Event
three_sends = send_runs "one" ∷ send_runs "two" ∷ write_completes ∷ send_runs "three" ∷ []

run-written_example :
    (outbound (run fresh three_sends) ≡ outbound fresh ++ accepted fresh three_sends)
    × IsBusy (run fresh three_sends)
run-written_example = run-written fresh three_sends refl

run-drained_example :
    let l = run fresh three_sends in
    let last = run l (completions (length l.session.write_queue)) in
    (last.session.write_queue ≡ []) × (last.started ≡ outbound l)
run-drained_example = run-drained (run fresh three_sends) (run-written fresh three_sends refl).1

abbrev first_boot : OcppPayload
first_boot =
    boot_notification (record { charge_point_model = "X100"; charge_point_vendor = "OpenAI" })

-- A session that has sent it.
abbrev asking : Session
asking = record (new_session no_metrics true) {
  pending = ("b1", record { resolve = some boot_reply; request = boot_request }) ∷ [];
}

abbrev boot_frame : String
boot_frame = to_json_call coded_json (create_call coded_json "b1" first_boot)

server_answers_example :
    (text : String) × (server_reads coded_json boot_frame [] ≡ (ok tt, text ∷ []))
    × ((r : CallResult String) × (served coded_json (List String) "b1" first_boot
          ≡ ok (call_result r))
        × ((on_message coded_json text asking).effects
            ≡ cancel_timeout "b1"
              ∷ deliver "b1" boot_reply (call_result r)
              ∷ (react coded_json boot_reply
                  (call_result r)
                  (record asking { pending = erase "b1" asking.pending })).effects))
unfolding lookup
server_answers_example =
    server_answers coded_json ⦃L = coded_laws⦄ (λ j. (j, refl, refl)) "b1" first_boot boot_reply
      asking boot_frame [] refl refl refl

abbrev nameless : BootNotification
nameless = record { charge_point_model = ""; charge_point_vendor = "V" }

abbrev accepted_session : WsServerSession ℕ
accepted_session = record new_server_session { state = connected; on_closed = some 7 }

-- Two clients: both send a call, and their replies go out.
abbrev two_clients : Main
unfolding main_run main_step step_after handle socket_accepted
two_clients =
    main_run coded_json new_main
      (socket_taken (some (ok "one")) ∷ socket_taken (some (ok "two")) ∷ [])

abbrev talk : List MainEvent
talk =
    happened 0 (handshake_ended false)
    ∷ happened 0 (text_came boot_frame)
    ∷ happened 1 (text_came boot_frame)
    ∷ happened 0 send_ran
    ∷ happened 0 (text_came boot_frame)
    ∷ happened 0 write_completed
    ∷ []

talk_goes_on : (main_run coded_json two_clients talk).ended ≡ none
unfolding main_run main_step step_after handle handle_at connection_step read_text call_handler
    route_call parse_frame to_json_call decode encode create_call ones tally route lookup
    server_router insert from_json_boot boot_handler
talk_goes_on = refl

first_client : Serves coded_json two_clients.connections 0 []
unfolding main_run main_step step_after handle socket_accepted new_connection
first_client = record { connection = new_connection; found = refl; sends = refl; is_busy = refl }

few_replies : length (replies coded_json 0 talk) ≤ 1000
unfolding read_text call_handler route_call parse_frame to_json_call decode encode create_call ones
    tally route lookup server_router insert from_json_boot boot_handler
few_replies = omega arith

run-replies_example :
    Serves coded_json
      (main_run coded_json two_clients talk).connections
      0
      (replies coded_json 0 talk)
run-replies_example =
    run-replies coded_json two_clients talk 0 talk_goes_on first_client few_replies

-- A third client comes, and one whose socket fails.
abbrev arrivals : List MainEvent
arrivals =
    socket_taken none
    ∷ socket_taken (some (ok "three"))
    ∷ happened 1 (handshake_ended true)
    ∷ happened 1 read_failed
    ∷ []

two_clients-IsLeaked : All IsLeaked two_clients.connections
unfolding main_run main_step step_after handle socket_accepted new_connection set_on_message
two_clients-IsLeaked =
    (record { hooked = refl; kept = refl }, (record { hooked = refl; kept = refl }, tt))

run-accepting_example :
    ((main_run coded_json two_clients arrivals).accepting ≡ true)
    × (length (main_run coded_json two_clients arrivals).connections
        ≡ length two_clients.connections + taken coded_json arrivals)
    × All IsLeaked (main_run coded_json two_clients arrivals).connections
unfolding main_run main_step step_after handle handle_at connection_step socket_accepted
run-accepting_example = run-accepting coded_json two_clients arrivals refl two_clients-IsLeaked refl

-- Without the callback the session would be freed once its read has failed.
uncaptured_freed :
    (connection_step coded_json read_failed (record new_connection {
      line = record { session = new_server_session; started = [] };
    })).freed
    ≡ true
unfolding connection_step new_connection
uncaptured_freed = refl

-- Client 0 sends a boot notification without a model.
run-server_throws_example :
    let frame =
      to_json_call coded_json (create_call coded_json "b2" (boot_notification nameless)) in
    (what : String) × (main_run coded_json two_clients (happened 0 (text_came frame) ∷ talk)
      ≡ record two_clients { ended = some what })
unfolding main_run main_step step_after handle socket_accepted
run-server_throws_example =
    run-server_throws coded_json ⦃L = coded_laws⦄ two_clients 0 new_connection "b2" nameless
      (to_json_call coded_json (create_call coded_json "b2" (boot_notification nameless))) talk refl
      refl refl refl
