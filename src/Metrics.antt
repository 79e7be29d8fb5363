-- ===== src/Metrics.antt =====
-- json_wo/include/metrics.hpp and json_wo/metrics.cpp. The counters are uint64_t atomics: numbers
-- below 2^64, of which each operation reads or writes one at a time.
pub mod Ops
pub mod Max
pub mod Snapshot
pub mod Log
pub mod Tests
use ocppwo.Common.{ℕ, ◌+◌, ◌%◌, ◌^◌}

-- `fetch_add(1)`
abbrev pub inc64 : ℕ → ℕ
inc64 n = (n + 1) % 2 ^ 64

pub record Metrics : Type 0 where
  pub current_write_queue_depth : ℕ
  pub max_depth_observed : ℕ
  pub writes_in_flight_max_observed : ℕ
  pub writes_enqueued_total : ℕ
  pub writes_completed_total : ℕ
  pub close_events_total : ℕ
  pub pending_max : ℕ
  pub timeouts_total : ℕ
  pub connection_closed_failures_total : ℕ
  pub calls_sent : ℕ
  pub callresults_received : ℕ
  pub callerrors_received : ℕ
  pub connect_attempts_total : ℕ
  pub successful_connects_total : ℕ
  pub reconnect_attempts_total : ℕ
  pub online_transitions_total : ℕ
  pub last_backoff_ms : ℕ
  pub time_to_online_last_ms : ℕ
  pub server_frames_received_total : ℕ
  pub server_calls_received_total : ℕ
  pub server_replies_sent_total : ℕ
  pub server_force_closes_total : ℕ

pub record MetricsSnapshot : Type 0 where
  pub current_write_queue_depth : ℕ
  pub max_depth_observed : ℕ
  pub writes_in_flight_max_observed : ℕ
  pub writes_enqueued_total : ℕ
  pub writes_completed_total : ℕ
  pub close_events_total : ℕ
  pub pending_max : ℕ
  pub timeouts_total : ℕ
  pub connection_closed_failures_total : ℕ
  pub calls_sent : ℕ
  pub callresults_received : ℕ
  pub callerrors_received : ℕ
  pub connect_attempts_total : ℕ
  pub successful_connects_total : ℕ
  pub reconnect_attempts_total : ℕ
  pub online_transitions_total : ℕ
  pub last_backoff_ms : ℕ
  pub time_to_online_last_ms : ℕ
  pub server_frames_received_total : ℕ
  pub server_calls_received_total : ℕ
  pub server_replies_sent_total : ℕ
  pub server_force_closes_total : ℕ

-- A new object: all counters are 0.
abbrev pub no_metrics : Metrics
no_metrics = record {
  current_write_queue_depth = 0;
  max_depth_observed = 0;
  writes_in_flight_max_observed = 0;
  writes_enqueued_total = 0;
  writes_completed_total = 0;
  close_events_total = 0;
  pending_max = 0;
  timeouts_total = 0;
  connection_closed_failures_total = 0;
  calls_sent = 0;
  callresults_received = 0;
  callerrors_received = 0;
  connect_attempts_total = 0;
  successful_connects_total = 0;
  reconnect_attempts_total = 0;
  online_transitions_total = 0;
  last_backoff_ms = 0;
  time_to_online_last_ms = 0;
  server_frames_received_total = 0;
  server_calls_received_total = 0;
  server_replies_sent_total = 0;
  server_force_closes_total = 0;
}
