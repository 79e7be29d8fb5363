-- ===== src/Loop/Signals.antt =====
-- The observers of `wire_signals`, and how the controller's effects reach them.
use ocppwo.Common.{ℕ, ◌-◌, ◌/◌, true, false, Option, none, some, List, [], ◌∷◌, ◌++◌, if◌then◌else◌}
use ocppwo.Metrics.{Metrics, inc64}
use ocppwo.Metrics.Ops.{
  reconnect_connect_attempts_total_increment, reconnect_reconnect_attempts_total_increment,
  reconnect_successful_connects_total_increment, reconnect_online_transitions_total_increment,
  reconnect_set_last_backoff_ms, reconnect_set_time_to_online_last_ms,
}
use ocppwo.Reconnect.{
  ReconnectController, Effect, signal_connecting, signal_connected, signal_online, signal_offline,
  signal_closed, signal_backoff, connect, close, post,
}
use ocppwo.Loop.{
  ClientLoop, offline, connecting, online, Action, start_transport, close_transport, post_after,
  session_transport_connected, session_start_heartbeat, backoff_observed, null_session,
}

-- A call of the session's member that this action names.
abbrev pub call_session : Action → ClientLoop → List Action
call_session a l = if l.session then a ∷ [] else null_session ∷ []

unfoldable pub on_connecting : ℕ → ClientLoop → ClientLoop × List Action
on_connecting now l =
    let counted = reconnect_connect_attempts_total_increment l.metrics in
    (
      record l {
        state = connecting;
        metrics =
            if l.ever_connected
            then reconnect_reconnect_attempts_total_increment counted
            else counted;
        connect_start_time = some now;
      },
      [],
    )

unfoldable pub on_connected : ClientLoop → ClientLoop × List Action
on_connected l = (
  record l {
    state = connecting;
    ever_connected = true;
    metrics = reconnect_successful_connects_total_increment l.metrics;
  },
  call_session session_transport_connected l,
)

-- The time since the connection attempt; the steady clock does not go back.
unfoldable pub time_to_online : ℕ → Option ℕ → Metrics → Metrics
time_to_online now none m = m
time_to_online now (some t) m = reconnect_set_time_to_online_last_ms ((now - t) / 1_000_000) m

unfoldable pub on_online : ℕ → ClientLoop → ClientLoop × List Action
unfolding time_to_online
on_online now l = (
  record l {
    state = online;
    online_transitions = inc64 l.online_transitions;
    metrics =
        time_to_online now l.connect_start_time
          (reconnect_online_transitions_total_increment l.metrics);
    connect_start_time = none;
  },
  call_session session_start_heartbeat l,
)

unfoldable pub on_offline : ClientLoop → ClientLoop × List Action
on_offline l = (record l { state = offline }, [])

unfoldable pub on_backoff_scheduled : ℕ → ClientLoop → ClientLoop × List Action
on_backoff_scheduled delay l = (
  record l { metrics = reconnect_set_last_backoff_ms delay l.metrics },
  if l.observes_backoff then backoff_observed delay ∷ [] else [],
)

-- What an effect of the controller comes to, at this time.
unfoldable pub take_up : ℕ → Effect → ClientLoop → ClientLoop × List Action
unfolding on_connecting on_connected on_online on_offline on_backoff_scheduled
take_up now signal_connecting l = on_connecting now l
take_up now signal_connected l = on_connected l
take_up now signal_online l = on_online now l
take_up now signal_offline l = on_offline l
take_up now (signal_closed why) l = (l, [])
take_up now (signal_backoff delay) l = on_backoff_scheduled delay l
take_up now (connect url) l = (record l { closing = false }, start_transport ∷ [])
take_up now close l = (record l { closing = true }, close_transport ∷ [])
take_up now (post delay j) l = (l, post_after delay j ∷ [])

unfoldable pub take_all : ℕ → List Effect → ClientLoop → ClientLoop × List Action
unfolding take_up
take_all now [] l = (l, [])
take_all now (e ∷ es) l =
    let (l', actions) = take_up now e l in
    let (last, rest) = take_all now es l' in (last, actions ++ rest)

-- A call of the controller's method, with its effects taken up.
abbrev pub control :
    ℕ
    → (ReconnectController → ReconnectController × List Effect)
    → ClientLoop
    → ClientLoop × List Action
control now method l =
    let (rc, effects) = method l.rc in take_all now effects (record l { rc = rc })
