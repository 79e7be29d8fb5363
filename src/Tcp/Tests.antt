-- ===== src/Tcp/Tests.antt =====
-- A session on a concrete conversation.
use ocppwo.Common.{◌≡◌, refl, [], ◌∷◌, List, String, pos, ◌>>=◌}
use ocppwo.Json.Coded.{coded_json, coded_laws}
use ocppwo.Ocpp.{heartbeat, heart_beat}
use ocppwo.Ocpp.Calls.{create_call}
use ocppwo.Ocpp.Frames.{to_json_call}
use ocppwo.Tcp.Lines.{with_handlers, read_done}
use ocppwo.Tcp.Machine.{Event, line_arrives, read_fails, write_completes, started, run}
use ocppwo.Tcp.Order.{serve, heard, run-serves}
use ocppwo.Tcp.Answers.{no_handlers, tcp_served, print_line, read_done-create_call}

abbrev beat : String
beat = coded_json.array (
    coded_json.of_int (pos 2)
    ∷ coded_json.of_string "h1"
    ∷ coded_json.of_string "HeartBeat"
    ∷ coded_json.object []
    ∷ [])

abbrev talk : List Event
talk = line_arrives beat ∷ line_arrives beat ∷ write_completes ∷ read_fails ∷ []

run-serves_example :
    (run coded_json String
      (with_handlers coded_json String (no_handlers coded_json String))
      started
      talk).asked
    ≡ serve coded_json String (with_handlers coded_json String (no_handlers coded_json String)) (
        heard coded_json String
          (with_handlers coded_json String (no_handlers coded_json String))
          started
          talk)
run-serves_example =
    run-serves coded_json String (with_handlers coded_json String (no_handlers coded_json String))
      talk

read_done-create_call_example :
    read_done coded_json String
      (with_handlers coded_json String (no_handlers coded_json String))
      beat
    ≡ (tcp_served coded_json String "h1" (heartbeat heart_beat) >>= print_line coded_json String)
unfolding create_call to_json_call
read_done-create_call_example =
    read_done-create_call coded_json String ⦃L = coded_laws⦄ "h1" (heartbeat heart_beat) beat refl
