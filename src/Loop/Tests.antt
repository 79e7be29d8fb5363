-- ===== src/Loop/Tests.antt =====
-- The coordinator on concrete runs.
use ocppwo.Common.{ℕ, ◌≡◌, refl, true, false, List, [], ◌∷◌}
use ocppwo.Reconnect.{connecting}
use ocppwo.Metrics.Ops.{reconnect_set_time_to_online_last_ms}
use ocppwo.Loop.{ClientLoop, new_loop, online}
use ocppwo.Loop.Steps.{
  Event, started, stopped, closed, accepted, fired_resume, fired_retry, step, run, connect_attempts,
  online_transitions,
}
use ocppwo.Loop.Steps.{connected as transport_up}
use ocppwo.Loop.Probes.{run-probes}
use ocppwo.Loop.Stop.{starts, stop-starts}

abbrev steady : ℕ → ℕ
steady n = n

-- A coordinator that has come online.
abbrev rise : List Event
rise =
    started "ws://127.0.0.1:12345" 0
    ∷ transport_up 2_000_000 steady
    ∷ accepted 3_000_000
    ∷ fired_resume 9_000_000
    ∷ []

abbrev up : ClientLoop
up = (run (new_loop true false) rise).0

rise_online : up.state ≡ online
unfolding run step
rise_online = refl

rise_time : up.metrics.time_to_online_last_ms ≡ 9
unfolding run step reconnect_set_time_to_online_last_ms
rise_time = refl

run-probes_example :
    let l = (run (new_loop true false) rise).0 in
    (connect_attempts l ≡ 0) × (online_transitions l ≡ l.metrics.online_transitions_total)
run-probes_example = run-probes true false rise

stop-starts_example :
    let o = run up (stopped 10_000_000 ∷ closed 11_000_000 steady ∷ fired_retry 12_000_000 ∷ []) in
    (starts o.1 ≡ 1) × (o.0.rc.state ≡ connecting)
unfolding run step
stop-starts_example =
    stop-starts up 10_000_000 11_000_000 12_000_000 steady refl refl refl refl refl refl
