-- ===== src/Metrics/Ops.antt =====
-- json_wo/metrics.cpp: the operations. Each is one thread's; `Max` is about several.
use ocppwo.Common.{
  ℕ, ltb, ◌==◌, not, ◌&&◌, Bool, false, Option, none, some, List, [], ◌∷◌, if◌then◌else◌,
}
use ocppwo.Metrics.{Metrics, inc64}

-- One `compare_exchange_weak`: the value that other threads have left in the target, and whether
-- the exchange fails although nothing changed.
pub record Turn : Type 0 where
  pub seen : ℕ
  pub spurious : Bool

-- The loop of `update_max` after `cur` was loaded, with the turns that it takes and the value that
-- it leaves in the target; `none` if there are too few turns.
unfoldable pub max_loop : List Turn → ℕ → ℕ → Option ℕ
max_loop [] cur value = if ltb cur value then none else some cur
max_loop (t ∷ ts) cur value =
    let again = max_loop ts t.seen value in
    if ltb cur value
    then (if t.seen == cur && not t.spurious then some value else again)
    else some cur

-- Metrics::update_max, with `target` the value of the first load
unfoldable pub update_max : List Turn → ℕ → ℕ → Option ℕ
unfolding max_loop
update_max turns target value = max_loop turns target value

abbrev or_zero : Option ℕ → ℕ
or_zero none = 0
or_zero (some n) = n

-- With no other thread at work the first exchange succeeds.
unfoldable pub raise : ℕ → ℕ → ℕ
unfolding update_max
raise target value =
    or_zero (update_max (record { seen = target; spurious = false } ∷ []) target value)

unfoldable pub transport_on_write_enqueued : ℕ → Metrics → Metrics
transport_on_write_enqueued depth m = record m {
  writes_enqueued_total = inc64 m.writes_enqueued_total;
  current_write_queue_depth = depth;
  max_depth_observed = raise m.max_depth_observed depth;
}

unfoldable pub transport_on_write_completed : ℕ → Metrics → Metrics
transport_on_write_completed depth m = record m {
  writes_completed_total = inc64 m.writes_completed_total;
  current_write_queue_depth = depth;
}

unfoldable pub transport_observe_writes_in_flight : ℕ → Metrics → Metrics
transport_observe_writes_in_flight n m = record m {
  writes_in_flight_max_observed = raise m.writes_in_flight_max_observed n;
}

unfoldable pub transport_on_close_event : Metrics → Metrics
transport_on_close_event m = record m { close_events_total = inc64 m.close_events_total }

unfoldable pub timeouts_total_increment : Metrics → Metrics
timeouts_total_increment m = record m { timeouts_total = inc64 m.timeouts_total }

unfoldable pub connection_closed_failures_total_increment : Metrics → Metrics
connection_closed_failures_total_increment m = record m {
  connection_closed_failures_total = inc64 m.connection_closed_failures_total;
}

unfoldable pub reconnect_connect_attempts_total_increment : Metrics → Metrics
reconnect_connect_attempts_total_increment m = record m {
  connect_attempts_total = inc64 m.connect_attempts_total;
}

unfoldable pub reconnect_successful_connects_total_increment : Metrics → Metrics
reconnect_successful_connects_total_increment m = record m {
  successful_connects_total = inc64 m.successful_connects_total;
}

unfoldable pub reconnect_reconnect_attempts_total_increment : Metrics → Metrics
reconnect_reconnect_attempts_total_increment m = record m {
  reconnect_attempts_total = inc64 m.reconnect_attempts_total;
}

unfoldable pub reconnect_online_transitions_total_increment : Metrics → Metrics
reconnect_online_transitions_total_increment m = record m {
  online_transitions_total = inc64 m.online_transitions_total;
}

unfoldable pub server_frames_received_total_increment : Metrics → Metrics
server_frames_received_total_increment m = record m {
  server_frames_received_total = inc64 m.server_frames_received_total;
}

unfoldable pub server_calls_received_total_increment : Metrics → Metrics
server_calls_received_total_increment m = record m {
  server_calls_received_total = inc64 m.server_calls_received_total;
}

unfoldable pub server_replies_sent_total_increment : Metrics → Metrics
server_replies_sent_total_increment m = record m {
  server_replies_sent_total = inc64 m.server_replies_sent_total;
}

unfoldable pub server_force_closes_total_increment : Metrics → Metrics
server_force_closes_total_increment m = record m {
  server_force_closes_total = inc64 m.server_force_closes_total;
}

unfoldable pub reconnect_set_last_backoff_ms : ℕ → Metrics → Metrics
reconnect_set_last_backoff_ms ms m = record m { last_backoff_ms = ms }

unfoldable pub reconnect_set_time_to_online_last_ms : ℕ → Metrics → Metrics
reconnect_set_time_to_online_last_ms ms m = record m { time_to_online_last_ms = ms }
