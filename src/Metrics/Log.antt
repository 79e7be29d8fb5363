-- ===== src/Metrics/Log.antt =====
-- json_wo/metrics_logger.cpp: MetricsLogger::log_metrics, as the text that it writes.
use Prim.Native.String.{compare, ◌++◌}
use Prim.Native.Nat.{Ordering}
use ocppwo.Common.{ℕ, Bool, true, false, List, [], ◌∷◌, String, if◌then◌else◌, pos}
use ocppwo.Metrics.{MetricsSnapshot}
use ocppwo.Ocpp.Frames.{to_string}

-- `a < b` on std::string_view
abbrev str_ltb : String → String → Bool
str_ltb a b = elim (compare a b) [ Ordering.lt ↦ true | _ ↦ false ]

-- The array before it is sorted.
unfoldable pub items : MetricsSnapshot → List (String × ℕ)
items s =
    ("protocol.calls_sent", s.calls_sent)
    ∷ ("protocol.callresults_received", s.callresults_received)
    ∷ ("protocol.callerrors_received", s.callerrors_received)
    ∷ ("reconnect.connect_attempts_total", s.connect_attempts_total)
    ∷ ("reconnect.successful_connects_total", s.successful_connects_total)
    ∷ ("reconnect.reconnect_attempts_total", s.reconnect_attempts_total)
    ∷ ("reconnect.online_transitions_total", s.online_transitions_total)
    ∷ ("reconnect.last_backoff_ms", s.last_backoff_ms)
    ∷ ("reconnect.time_to_online_last_ms", s.time_to_online_last_ms)
    ∷ ("session.pending_max", s.pending_max)
    ∷ ("session.timeouts_total", s.timeouts_total)
    ∷ ("session.connection_closed_failures_total", s.connection_closed_failures_total)
    ∷ ("transport.current_write_queue_depth", s.current_write_queue_depth)
    ∷ ("transport.max_depth_observed", s.max_depth_observed)
    ∷ ("transport.writes_in_flight_max_observed", s.writes_in_flight_max_observed)
    ∷ ("transport.writes_enqueued_total", s.writes_enqueued_total)
    ∷ ("transport.writes_completed_total", s.writes_completed_total)
    ∷ ("transport.close_events_total", s.close_events_total)
    ∷ []

insert_sorted : String × ℕ → List (String × ℕ) → List (String × ℕ)
insert_sorted kv [] = kv ∷ []
insert_sorted kv (x ∷ xs) =
    let rest = insert_sorted kv xs in if str_ltb x.0 kv.0 then x ∷ rest else kv ∷ x ∷ xs

-- `std::sort` by the keys, which are distinct: every sort gives the same.
unfoldable pub sort : List (String × ℕ) → List (String × ℕ)
unfolding insert_sorted
sort [] = []
sort (x ∷ xs) = insert_sorted x (sort xs)

-- The loop that writes the lines.
unfoldable pub write_lines : List (String × ℕ) → String
write_lines [] = ""
write_lines ((k, v) ∷ xs) = k ++ "=" ++ to_string (pos v) ++ "\n" ++ write_lines xs

unfoldable pub log_metrics : MetricsSnapshot → String
unfolding items sort write_lines
log_metrics s = write_lines (sort (items s))
