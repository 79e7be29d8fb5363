-- ===== src/Reconnect/Control.antt =====
-- The controller's methods. `now` is what `tOps.now()` gives, and `jitter` what the random scaling
-- of the delay does in this call.
use ocppwo.Common.{
  ℕ, suc, ◌-◌, ◌/◌, Bool, true, false, not, ◌&&◌, Option, none, some, List, [], ◌∷◌, ◌++◌, String,
  if◌then◌else◌,
}
use ocppwo.Reconnect.{
  ConnState, disconnected, connecting, connected, closing, CloseReason, ReconnectController, Job,
  retry, resume, Effect, signal_connecting, signal_connected, signal_online, signal_offline,
  signal_closed, signal_backoff, connect, close, post, inc64,
}
use ocppwo.Reconnect.Backoff.{compute_backoff}

abbrev pub is_disconnected : ConnState → Bool
is_disconnected disconnected = true
is_disconnected _ = false

abbrev pub is_connected : ConnState → Bool
is_connected connected = true
is_connected _ = false

abbrev pub is_closing : ConnState → Bool
is_closing closing = true
is_closing _ = false

-- A call of an observer, if it is set.
abbrev pub emit : Bool → Effect → List Effect
emit b e = if b then e ∷ [] else []

-- Effects before those of the rest of a method.
abbrev pub with_effects :
    List Effect → ReconnectController × List Effect → ReconnectController × List Effect
with_effects es (c, rest) = (c, es ++ rest)

unfoldable pub try_reconnect : ℕ → ReconnectController → ReconnectController × List Effect
try_reconnect now c = if not (is_disconnected c.state) then (c, []) else (
  record c {
    state = connecting;
    metrics = record c.metrics {
      reconnect_attempts_started = inc64 c.metrics.reconnect_attempts_started;
      last_attempt_started_at = some now;
    };
  },
  emit c.signals.on_connecting signal_connecting ++ emit c.ops.async_connect (connect c.url),
)

unfoldable pub schedule_reconnect :
    (ℕ → ℕ) → ReconnectController → ReconnectController × List Effect
schedule_reconnect jitter c =
    let backoff = compute_backoff jitter c.policy c.attempt in
    if c.reconnect_scheduled then (c, []) else (
      record c {
        reconnect_scheduled = c.ops.post_after;
        attempt = suc c.attempt;
        last_backoff = backoff;
      },
      emit c.signals.on_backoff_scheduled (signal_backoff backoff)
          ++ emit c.ops.post_after (post backoff retry),
    )

-- ReconnectController::start
unfoldable pub start : String → ℕ → ReconnectController → ReconnectController × List Effect
unfolding try_reconnect
start url now c =
    let c' = record c { url = url } in
    if not (is_disconnected c'.state) then (c', []) else try_reconnect now c'

unfoldable pub stop : ReconnectController → ReconnectController × List Effect
stop c =
    if is_disconnected c.state
    then (c, [])
    else if c.ops.async_close
    then (record c { state = closing; reconnect_scheduled = false }, close ∷ [])
    else (record c { reconnect_scheduled = false }, [])

-- The completion that `stop` gives to `async_close`.
unfoldable pub close_done : ReconnectController → ReconnectController × List Effect
close_done c = (record c { state = disconnected }, [])

-- `now - *last_attempt_started_at` in milliseconds
abbrev pub duration : Option ℕ → ℕ → Option ℕ → Option ℕ
duration none now old = old
duration (some t) now old = some ((now - t) / 1_000_000)

unfoldable pub on_transport_open : ℕ → ReconnectController → ReconnectController × List Effect
on_transport_open now c = (
  record c {
    state = connected;
    metrics = record c.metrics {
      reconnect_attempts_succeeded = inc64 c.metrics.reconnect_attempts_succeeded;
      last_reconnect_duration =
          duration c.metrics.last_attempt_started_at now c.metrics.last_reconnect_duration;
    };
  },
  emit c.signals.on_connected signal_connected,
)

unfoldable pub on_transport_close :
    (ℕ → ℕ) → CloseReason → ReconnectController → ReconnectController × List Effect
unfolding schedule_reconnect
on_transport_close jitter why c =
    let c' = record c {
      state = disconnected;
      metrics = record c.metrics { last_disconnect_reason = some why };
    } in
    let signals =
      emit c.signals.on_closed (signal_closed why) ++ emit c.signals.on_offline signal_offline in
    if is_closing c.state
    then (c', signals)
    else with_effects signals (schedule_reconnect jitter c')

go_online : ReconnectController → ReconnectController × List Effect
go_online c = (record c { online = true }, emit c.signals.on_online signal_online)

unfoldable pub on_boot_accepted : ReconnectController → ReconnectController × List Effect
unfolding go_online
on_boot_accepted c =
    if c.ops.post_after then (c, post c.policy.resume_delay resume ∷ []) else go_online c

-- The completion that `try_reconnect_` gives to `async_connect`.
unfoldable pub connect_done :
    ℕ → (ℕ → ℕ) → Bool → ReconnectController → ReconnectController × List Effect
unfolding on_transport_open schedule_reconnect
connect_done now jitter true c = on_transport_open now c
connect_done now jitter false c = schedule_reconnect jitter (record c {
  state = disconnected;
  metrics = record c.metrics {
    reconnect_attempts_failed = inc64 c.metrics.reconnect_attempts_failed;
  };
})

-- A posted callback runs: it does nothing unless the weak pointer that it holds can be locked.
unfoldable pub job_runs : ℕ → Job → ReconnectController → ReconnectController × List Effect
unfolding go_online try_reconnect
job_runs now resume c = if c.shared then go_online c else (c, [])
job_runs now retry c =
    if not c.shared
    then (c, [])
    else if not c.reconnect_scheduled
    then (c, [])
    else try_reconnect now (record c { reconnect_scheduled = false })

unfoldable pub can_send : ReconnectController → Bool
can_send c = c.online && is_connected c.state
