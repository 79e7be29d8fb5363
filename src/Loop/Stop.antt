-- ===== src/Loop/Stop.antt =====
-- The end of a connection, and what it starts again.
use ocppwo.Common.{Bool, String, ℕ, suc, ◌≡◌, true, false, List, [], ◌∷◌, arith}
use ocppwo.Metrics.Ops.{
  reconnect_connect_attempts_total_increment, reconnect_reconnect_attempts_total_increment,
  reconnect_set_last_backoff_ms,
}
use ocppwo.Reconnect.{connected, connecting, disconnected, inc64, retry}
use ocppwo.Reconnect.Control.{
  start, stop, close_done, on_transport_close, connect_done, job_runs, schedule_reconnect,
  try_reconnect,
}
use ocppwo.Loop.{new_loop, ClientLoop, Action, start_transport, post_after}
use ocppwo.Loop.Signals.{take_up, take_all, on_connecting, on_offline, on_backoff_scheduled}
use ocppwo.Loop.Steps.{
  start_controller, no_transport, started, transport_missing, connection_closed, close_completes,
  transport_closed, timer_fires, stop_controller, stopped, closed, fired_retry, step, run,
}

-- How many retries are posted.
abbrev pub retries : List Action → ℕ
retries [] = 0
retries (post_after delay retry ∷ rest) = suc (retries rest)
retries (a ∷ rest) = retries rest

-- How many transports are started.
abbrev pub starts : List Action → ℕ
starts [] = 0
starts (start_transport ∷ rest) = suc (starts rest)
starts (a ∷ rest) = starts rest

-- A connection that is lost while the session is set, no retry is scheduled, no close was asked
-- for and there are timers, posts exactly one retry, although both completions of the close
-- schedule; the controller is disconnected and counts one more attempt, and the attempt that had
-- succeeded is also counted as failed.
pub closed-retries :
    (l : ClientLoop) (now : ℕ) (jitter : ℕ → ℕ)
    → l.session ≡ true
    → l.closing ≡ false
    → l.rc.state ≡ connected
    → l.rc.reconnect_scheduled ≡ false
    → l.rc.ops.post_after ≡ true
    → let o = transport_closed now jitter l in
      (retries o.1 ≡ 1)
      × (o.0.rc.state ≡ disconnected)
      × (o.0.rc.reconnect_scheduled ≡ true)
      × (o.0.rc.attempt ≡ suc l.rc.attempt)
      × (o.0.rc.metrics.reconnect_attempts_failed ≡ inc64 l.rc.metrics.reconnect_attempts_failed)
unfolding transport_closed connection_closed close_completes take_all take_up on_offline
    on_backoff_scheduled connect_done on_transport_close schedule_reconnect
closed-retries l now jitter a b c d e = ground (arith, a, b, c, d, e)

-- A coordinator that is stopped while connected, with a session, a shared controller and all
-- transport operations, connects again: when the transport's close completes after `stop`, the
-- close callback that `async_close` wraps schedules a retry, and its timer starts a transport.
pub stop-starts :
    (l : ClientLoop) (t now later : ℕ) (jitter : ℕ → ℕ)
    → l.session ≡ true
    → l.rc.shared ≡ true
    → l.rc.state ≡ connected
    → l.rc.ops.async_close ≡ true
    → l.rc.ops.async_connect ≡ true
    → l.rc.ops.post_after ≡ true
    → let o = run l (stopped t ∷ closed now jitter ∷ fired_retry later ∷ []) in
      (starts o.1 ≡ 1) × (o.0.rc.state ≡ connecting)
unfolding run step stop_controller stop transport_closed connection_closed close_completes take_all
    take_up on_offline on_backoff_scheduled on_connecting connect_done on_transport_close
    schedule_reconnect timer_fires job_runs try_reconnect close_done
stop-starts l t now later jitter a b c d e f = ground (arith, a, b, c, d, e, f)

-- A new coordinator whose factory makes no transport starts one attempt, counts it as an attempt
-- and as failed, and posts one retry, whose timer starts the next attempt.
pub missing-retries :
    (make_session observes : Bool) (url : String) (t now later : ℕ) (jitter : ℕ → ℕ)
    → let o =
        run
          (new_loop make_session observes)
          (started url t ∷ transport_missing now jitter ∷ fired_retry later ∷ []) in
      (starts o.1 ≡ 2)
      × (retries o.1 ≡ 1)
      × (o.0.rc.state ≡ connecting)
      × (o.0.rc.metrics.reconnect_attempts_failed ≡ 1)
      × (o.0.metrics.connect_attempts_total ≡ 2)
unfolding run step start_controller start no_transport take_all take_up on_connecting
    on_backoff_scheduled connect_done schedule_reconnect timer_fires job_runs try_reconnect
    reconnect_connect_attempts_total_increment reconnect_reconnect_attempts_total_increment
    reconnect_set_last_backoff_ms
missing-retries make_session observes url t now later jitter = ground arith
