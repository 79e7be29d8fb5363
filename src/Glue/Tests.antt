-- ===== src/Glue/Tests.antt =====
-- The glue on a concrete run.
use ocppwo.Common.{ℕ, ◌≡◌, ◌+◌, ◌%◌, ◌^◌, refl, false, List, [], ◌∷◌, arith}
use ocppwo.Reconnect.{ReconnectSignals}
use ocppwo.Glue.{create}
use ocppwo.Glue.Ops.{Event, started, connected, closed, client_closed, step, run}
use ocppwo.Glue.Closes.{failed, starts, client_closed-failed}

abbrev silent : ReconnectSignals
silent = record {
  on_connecting = false;
  on_connected = false;
  on_closed = false;
  on_online = false;
  on_offline = false;
  on_backoff_scheduled = false;
}

abbrev steady : ℕ → ℕ
steady n = n

-- A connection that is lost, and another one.
abbrev twice : List Event
twice =
    started "u" 0 ∷ connected 1 steady ∷ closed 2 steady ∷ started "u" 3 ∷ connected 4 steady ∷ []

twice-failed : failed (client_closed 5 steady (run (create silent) twice).0).0.rc ≡ 3
unfolding run step client_closed
twice-failed = refl

client_closed-failed_example :
    failed (client_closed 5 steady (run (create silent) twice).0).0.rc
    ≡ (failed (run (create silent) twice).0.rc + starts (run (create silent) twice).1) % 2 ^ 64
unfolding run step
client_closed-failed_example = client_closed-failed silent twice 5 steady (omega arith)
