-- ===== src/Metrics/Snapshot.antt =====
-- Metrics::snapshot. The initializer names no `close_events_total`, which so keeps its default, 0.
use ocppwo.Common.{◌≡◌, refl}
use ocppwo.Metrics.{Metrics, MetricsSnapshot}
use ocppwo.Metrics.Ops.{transport_on_close_event}

unfoldable pub snapshot : Metrics → MetricsSnapshot
snapshot m = record {
  current_write_queue_depth = m.current_write_queue_depth;
  max_depth_observed = m.max_depth_observed;
  writes_in_flight_max_observed = m.writes_in_flight_max_observed;
  writes_enqueued_total = m.writes_enqueued_total;
  writes_completed_total = m.writes_completed_total;
  close_events_total = 0;
  pending_max = m.pending_max;
  timeouts_total = m.timeouts_total;
  connection_closed_failures_total = m.connection_closed_failures_total;
  calls_sent = m.calls_sent;
  callresults_received = m.callresults_received;
  callerrors_received = m.callerrors_received;
  connect_attempts_total = m.connect_attempts_total;
  successful_connects_total = m.successful_connects_total;
  reconnect_attempts_total = m.reconnect_attempts_total;
  online_transitions_total = m.online_transitions_total;
  last_backoff_ms = m.last_backoff_ms;
  time_to_online_last_ms = m.time_to_online_last_ms;
  server_frames_received_total = m.server_frames_received_total;
  server_calls_received_total = m.server_calls_received_total;
  server_replies_sent_total = m.server_replies_sent_total;
  server_force_closes_total = m.server_force_closes_total;
}

-- The snapshot that copies every counter.
abbrev pub of_metrics : Metrics → MetricsSnapshot
of_metrics m = record {
  current_write_queue_depth = m.current_write_queue_depth;
  max_depth_observed = m.max_depth_observed;
  writes_in_flight_max_observed = m.writes_in_flight_max_observed;
  writes_enqueued_total = m.writes_enqueued_total;
  writes_completed_total = m.writes_completed_total;
  close_events_total = m.close_events_total;
  pending_max = m.pending_max;
  timeouts_total = m.timeouts_total;
  connection_closed_failures_total = m.connection_closed_failures_total;
  calls_sent = m.calls_sent;
  callresults_received = m.callresults_received;
  callerrors_received = m.callerrors_received;
  connect_attempts_total = m.connect_attempts_total;
  successful_connects_total = m.successful_connects_total;
  reconnect_attempts_total = m.reconnect_attempts_total;
  online_transitions_total = m.online_transitions_total;
  last_backoff_ms = m.last_backoff_ms;
  time_to_online_last_ms = m.time_to_online_last_ms;
  server_frames_received_total = m.server_frames_received_total;
  server_calls_received_total = m.server_calls_received_total;
  server_replies_sent_total = m.server_replies_sent_total;
  server_force_closes_total = m.server_force_closes_total;
}

-- A snapshot shows every counter as it is, except that it never shows a close event: with the
-- snapshot's close events put right it would be the metrics themselves.
pub snapshot_faithful :
    (m : Metrics)
    → (snapshot m ≡ of_metrics (record m { close_events_total = 0 }))
      × (snapshot (transport_on_close_event m) ≡ snapshot m)
unfolding snapshot transport_on_close_event
snapshot_faithful m = (refl, refl)
