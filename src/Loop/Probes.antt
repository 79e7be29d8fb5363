-- ===== src/Loop/Probes.antt =====
-- What the probes and the metrics count.
use ocppwo.Common.{
  ℕ, ◌≡◌, refl, Bool, true, false, Option, none, some, List, [], ◌∷◌, if◌then◌else◌, arith,
}
use ocppwo.Reconnect.{
  ReconnectController, Effect, signal_connecting, signal_connected, signal_online, signal_offline,
  signal_closed, signal_backoff, connect, close, post, resume, retry, new_controller,
  default_policy, transport_error,
}
use ocppwo.Reconnect.Control.{
  start, stop, close_done, on_transport_close, on_boot_accepted, connect_done, job_runs,
}
use ocppwo.Metrics.Ops.{
  reconnect_connect_attempts_total_increment, reconnect_reconnect_attempts_total_increment,
  reconnect_successful_connects_total_increment, reconnect_online_transitions_total_increment,
  reconnect_set_last_backoff_ms, reconnect_set_time_to_online_last_ms,
}
use ocppwo.Loop.{ClientLoop, Action, new_loop, wired, loop_ops, offline}
use ocppwo.Loop.Signals.{
  on_connecting, on_connected, on_online, on_offline, on_backoff_scheduled, time_to_online, take_up,
  take_all, control,
}
use ocppwo.Loop.Steps.{
  create_session, no_transport, transport_connected, connection_closed, close_completes,
  transport_closed, transport_message, boot_accepted, timer_fires, start_controller,
  stop_controller, connect_attempts, online_transitions, Event, started, stopped, connected, closed,
  transport_missing, message, accepted, fired_resume, fired_retry, step, run,
}

abbrev pub IsCounted : ClientLoop → Type 0
IsCounted l = (l.connect_attempts ≡ 0) × (l.online_transitions ≡ l.metrics.online_transitions_total)

take_up-IsCounted :
    (now : ℕ) (e : Effect) (l : ClientLoop) → IsCounted l → IsCounted (take_up now e l).0
unfolding take_up on_connecting on_connected on_online on_offline on_backoff_scheduled
    time_to_online reconnect_connect_attempts_total_increment
    reconnect_reconnect_attempts_total_increment reconnect_successful_connects_total_increment
    reconnect_online_transitions_total_increment reconnect_set_last_backoff_ms
    reconnect_set_time_to_online_last_ms
take_up-IsCounted now signal_connecting l i = ground (arith, i)
take_up-IsCounted now signal_connected l i = i
take_up-IsCounted now signal_online l i = go l.connect_start_time refl
  where
    go : (o : Option ℕ) → l.connect_start_time ≡ o → IsCounted (take_up now signal_online l).0
    go none e = ground (arith, i)
    go (some t) e = ground (arith, i)
take_up-IsCounted now signal_offline l i = i
take_up-IsCounted now (signal_closed why) l i = i
take_up-IsCounted now (signal_backoff delay) l i = i
take_up-IsCounted now (connect url) l i = i
take_up-IsCounted now close l i = i
take_up-IsCounted now (post delay j) l i = i

take_all-IsCounted :
    (now : ℕ) (es : List Effect) (l : ClientLoop) → IsCounted l → IsCounted (take_all now es l).0
unfolding take_all
take_all-IsCounted now [] l i = i
take_all-IsCounted now (e ∷ es) l i =
    take_all-IsCounted now es (take_up now e l).0 (take_up-IsCounted now e l i)

control-IsCounted :
    (now : ℕ) (method : ReconnectController → ReconnectController × List Effect) (l : ClientLoop)
    → IsCounted l
    → IsCounted (control now method l).0
control-IsCounted now method l i =
    take_all-IsCounted now (method l.rc).1 (record l { rc = (method l.rc).0 }) i

create-IsCounted : (l : ClientLoop) → IsCounted l → IsCounted (create_session l).0
unfolding create_session
create-IsCounted l i = ground (arith, i)

choice-IsCounted :
    (b : Bool) (x y : ClientLoop × List Action)
    → IsCounted x.0
    → IsCounted y.0
    → IsCounted (if b then x else y).0
choice-IsCounted true x y i j = i
choice-IsCounted false x y i j = j

connection_closed-IsCounted :
    (now : ℕ) (jitter : ℕ → ℕ) (l : ClientLoop)
    → IsCounted l
    → IsCounted (connection_closed now jitter l).0
unfolding connection_closed
connection_closed-IsCounted now jitter l i =
    let failed = control now (connect_done now jitter false) l in
    let kept = control-IsCounted now (connect_done now jitter false) l i in
    choice-IsCounted l.session _ _
      (control-IsCounted now (on_transport_close jitter transport_error) failed.0 kept) kept

close_completes-IsCounted :
    (now : ℕ) (l : ClientLoop) → IsCounted l → IsCounted (close_completes now l).0
unfolding close_completes
close_completes-IsCounted now l i =
    choice-IsCounted l.closing _ _
      (control-IsCounted now close_done (record l { closing = false }) i) i

step-IsCounted : (l : ClientLoop) (e : Event) → IsCounted l → IsCounted (step l e).0
unfolding step start_controller stop_controller no_transport transport_connected transport_closed
    transport_message boot_accepted timer_fires
step-IsCounted l (started url now) i =
    control-IsCounted now (start url now)
      (record l { rc = new_controller default_policy loop_ops wired true; state = offline }) i
step-IsCounted l (stopped now) i = control-IsCounted now stop l i
step-IsCounted l (connected now jitter) i =
    control-IsCounted now (connect_done now jitter true) (create_session l).0 (create-IsCounted l i)
step-IsCounted l (closed now jitter) i =
    let kept = connection_closed-IsCounted now jitter l i in
    choice-IsCounted l.session _ _
      (close_completes-IsCounted now (connection_closed now jitter l).0 kept) kept
step-IsCounted l (transport_missing now jitter) i =
    control-IsCounted now (connect_done now jitter false) l i
step-IsCounted l (message text) i = i
step-IsCounted l (accepted now) i = control-IsCounted now on_boot_accepted l i
step-IsCounted l (fired_resume now) i = control-IsCounted now (job_runs now resume) l i
step-IsCounted l (fired_retry now) i = control-IsCounted now (job_runs now retry) l i

run-IsCounted : (l : ClientLoop) (es : List Event) → IsCounted l → IsCounted (run l es).0
unfolding run
run-IsCounted l [] i = i
run-IsCounted l (e ∷ es) i = run-IsCounted (step l e).0 es (step-IsCounted l e i)

-- Whatever a new coordinator goes through, its probe of online transitions agrees with the metric,
-- and its probe of connection attempts reads 0, also when the metrics count attempts.
pub run-probes :
    (make_session observes_backoff : Bool) (es : List Event)
    → let l = (run (new_loop make_session observes_backoff) es).0 in
      (connect_attempts l ≡ 0) × (online_transitions l ≡ l.metrics.online_transitions_total)
unfolding connect_attempts online_transitions
run-probes make_session observes_backoff es =
    run-IsCounted (new_loop make_session observes_backoff) es (refl, refl)
