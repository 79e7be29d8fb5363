-- ===== src/TestClient/Tests.antt =====
-- The client of the tests on a concrete run.
use ocppwo.Common.{ℕ, ◌≡◌, true, false, List, [], ◌∷◌}
use ocppwo.Json.Coded.{coded_json}
use ocppwo.Session.Calls.{is_ready}
use ocppwo.TestClient.{new_test_client}
use ocppwo.TestClient.Ops.{
  Event, start_called, transport_opened, text_read, boot_accepted, run, is_online,
  enable_heartbeats,
}
use ocppwo.TestClient.Offline.{run-is_online}

abbrev steady : ℕ → ℕ
steady n = n

-- It connects, and the server accepts its boot notification.
abbrev evening : List Event
evening =
    start_called 0
    ∷ transport_opened "b1" 1 steady
    ∷ text_read "[3,\"b1\",{\"currentTime\":\"now\",\"interval\":5,\"status\":\"Accepted\"}]"
    ∷ boot_accepted
    ∷ []

run-is_online_example :
    let t = (run coded_json (new_test_client "127.0.0.1" "12345") evening).0 in
    (is_online t ≡ false)
    × (t.online_transitions ≡ 0)
    × (is_ready t.session.state ≡ false)
    × (enable_heartbeats coded_json true t ≡ enable_heartbeats coded_json false t)
run-is_online_example = run-is_online coded_json "127.0.0.1" "12345" evening
