-- ===== src/Loop/Steps.antt =====
-- The callbacks that `make_transport_ops` sets, the coordinator's methods, and runs of them.
use ocppwo.Common.{ℕ, true, false, List, [], ◌∷◌, ◌++◌, String, if◌then◌else◌}
use ocppwo.Metrics.Log.{log_metrics}
use ocppwo.Metrics.Snapshot.{snapshot}
use ocppwo.Reconnect.{new_controller, default_policy, transport_error, Job, resume, retry}
use ocppwo.Reconnect.Control.{
  start, stop, close_done, on_transport_close, on_boot_accepted, connect_done, job_runs,
}
use ocppwo.Loop.{
  ClientLoop, offline, wired, loop_ops, Action, session_made, session_close, session_message,
  cancel_timers,
}
use ocppwo.Loop.Signals.{call_session, take_all, control}

abbrev pub and_then :
    ClientLoop × List Action → (ClientLoop → ClientLoop × List Action) → ClientLoop × List Action
and_then (l, actions) f = let (last, rest) = f l in (last, actions ++ rest)

unfoldable pub create_session : ClientLoop → ClientLoop × List Action
create_session l =
    if l.make_session then (record l { session = true }, session_made ∷ []) else (l, [])

-- `async_connect` when the factory makes no transport: the attempt fails at once. It follows the
-- `start_transport` that asked for the transport, before anything else happens.
unfoldable pub no_transport : ℕ → (ℕ → ℕ) → ClientLoop → ClientLoop × List Action
unfolding take_all connect_done
no_transport now jitter l = control now (connect_done now jitter false) l

-- The transport's on_connected callback.
unfoldable pub transport_connected : ℕ → (ℕ → ℕ) → ClientLoop → ClientLoop × List Action
unfolding create_session take_all connect_done
transport_connected now jitter l =
    and_then (create_session l) (control now (connect_done now jitter true))

-- The lambda that `async_connect` gives to the transport's on_close. Nothing follows a call of a
-- member of the null session.
unfoldable pub connection_closed : ℕ → (ℕ → ℕ) → ClientLoop → ClientLoop × List Action
unfolding take_all connect_done on_transport_close
connection_closed now jitter l =
    let failed = control now (connect_done now jitter false) l in
    let left =
      and_then (failed.0, failed.1 ++ call_session session_close failed.0)
        (control now (on_transport_close jitter transport_error)) in
    if l.session then left else (failed.0, failed.1 ++ call_session session_close failed.0)

-- The completion of `async_close`, after the callback that it wraps, the first time.
unfoldable pub close_completes : ℕ → ClientLoop → ClientLoop × List Action
unfolding take_all close_done
close_completes now l =
    if l.closing then control now close_done (record l { closing = false }) else (l, [])

-- The transport's on_close callback, wrapped or not.
unfoldable pub transport_closed : ℕ → (ℕ → ℕ) → ClientLoop → ClientLoop × List Action
unfolding connection_closed close_completes
transport_closed now jitter l =
    if l.session
    then and_then (connection_closed now jitter l) (close_completes now)
    else connection_closed now jitter l

-- The transport's on_message callback.
unfoldable pub transport_message : String → ClientLoop → ClientLoop × List Action
transport_message text l = (l, call_session (session_message text) l)

-- `session_sigs->on_boot_accepted`
unfoldable pub boot_accepted : ℕ → ClientLoop → ClientLoop × List Action
unfolding take_all on_boot_accepted
boot_accepted now l = control now on_boot_accepted l

-- A timer of `post_after` fires.
unfoldable pub timer_fires : ℕ → Job → ClientLoop → ClientLoop × List Action
unfolding take_all job_runs
timer_fires now j l = control now (job_runs now j) l

-- start_controller, which makes a new controller
unfoldable pub start_controller : String → ℕ → ClientLoop → ClientLoop × List Action
unfolding take_all start
start_controller url now l =
    control now (start url now)
      (record l { rc = new_controller default_policy loop_ops wired true; state = offline })

unfoldable pub stop_controller : ℕ → ClientLoop → ClientLoop × List Action
unfolding take_all stop
stop_controller now l =
    let (l', actions) = control now stop l in
    (record l' { state = offline }, cancel_timers ∷ actions)

-- ~ClientLoop
unfoldable pub destroy : ℕ → ClientLoop → ClientLoop × List Action
unfolding stop_controller
destroy now l = stop_controller now l

-- The probes.
unfoldable pub connect_attempts : ClientLoop → ℕ
connect_attempts l = l.connect_attempts

unfoldable pub online_transitions : ClientLoop → ℕ
online_transitions l = l.online_transitions

unfoldable pub loop_log : ClientLoop → String
unfolding log_metrics snapshot
loop_log l = log_metrics (snapshot l.metrics)

pub data Event : Type 0 where
  started : String → ℕ → Event
  stopped : ℕ → Event
  connected closed transport_missing : ℕ → (ℕ → ℕ) → Event
  message : String → Event
  accepted fired_resume fired_retry : ℕ → Event

unfoldable pub step : ClientLoop → Event → ClientLoop × List Action
unfolding start_controller stop_controller no_transport transport_connected transport_closed
    transport_message boot_accepted timer_fires
step l (started url now) = start_controller url now l
step l (stopped now) = stop_controller now l
step l (connected now jitter) = transport_connected now jitter l
step l (closed now jitter) = transport_closed now jitter l
step l (transport_missing now jitter) = no_transport now jitter l
step l (message text) = transport_message text l
step l (accepted now) = boot_accepted now l
step l (fired_resume now) = timer_fires now resume l
step l (fired_retry now) = timer_fires now retry l

unfoldable pub run : ClientLoop → List Event → ClientLoop × List Action
run l [] = (l, [])
run l (e ∷ es) = and_then (step l e) (λ l'. run l' es)
