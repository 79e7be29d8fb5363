-- ===== src/Reconnect/Tests.antt =====
-- The controller on concrete runs.
use ocppwo.Common.{ℕ, ◌-◌, ◌*◌, ◌^◌, min, ◌≡◌, refl, true, false, List, [], ◌∷◌, arith}
use ocppwo.Reconnect.{
  transport_error, disconnected, connecting, connected, ReconnectController, ReconnectSignals,
  TransportOps, default_policy, new_controller, retry, resume,
}
use ocppwo.Reconnect.Backoff.{base_delay}
use ocppwo.Reconnect.Control.{can_send}
use ocppwo.Reconnect.Steps.{
  Event, started, transport_closed, boot_accepted, connect_completes, job, step, run,
}
use ocppwo.Reconnect.Delay.{base_delay-min}
use ocppwo.Reconnect.Online.{run-cannot_send, reconnect-can_send}
use ocppwo.Reconnect.Attempts.{connects, step-connects, run-connects_unshared}

abbrev observed : ReconnectSignals
observed = record {
  on_connecting = true;
  on_connected = true;
  on_closed = true;
  on_online = true;
  on_offline = true;
  on_backoff_scheduled = true;
}

abbrev all_ops : TransportOps
all_ops = record { async_connect = true; async_close = true; post_after = true }

abbrev fresh : ReconnectController
fresh = new_controller default_policy all_ops observed true

abbrev steady : ℕ → ℕ
steady n = n

-- A connection that comes up and is lost twice.
abbrev story : List Event
story =
    started "ws://127.0.0.1:12345" 0
    ∷ connect_completes 5 steady true
    ∷ boot_accepted
    ∷ job 9 resume
    ∷ []

abbrev online_one : ReconnectController
online_one = record fresh { state = connected; online = true }

story_online : can_send (run fresh story).0 ≡ true
unfolding can_send run step
story_online = refl

eighth_delay : base_delay default_policy 8 ≡ 30_000
unfolding base_delay
eighth_delay = refl

base_delay-min_example : base_delay default_policy 3 ≡ min (500 * 2 ^ (3 - 1)) 30_000
base_delay-min_example = base_delay-min default_policy 3 (omega arith) (omega arith)

run-cannot_send_example :
    can_send
      (run
        (new_controller default_policy all_ops observed true)
        (started "u" 0 ∷ connect_completes 5 steady true ∷ [])).0
    ≡ false
run-cannot_send_example =
    run-cannot_send default_policy all_ops observed true
      (started "u" 0 ∷ connect_completes 5 steady true ∷ []) (tt, (tt, tt))

reconnect-can_send_example :
    can_send
      (run online_one (
        transport_closed steady transport_error
        ∷ job 7 retry
        ∷ connect_completes 8 steady true
        ∷ [])).0
    ≡ true
reconnect-can_send_example =
    reconnect-can_send online_one steady steady transport_error 7 8 refl refl refl refl refl

step-connects_example :
    (fresh.state ≡ disconnected)
    × ((step fresh (started "u" 0)).0.state ≡ connecting)
    × (connects (step fresh (started "u" 0)).1 ≡ 1)
unfolding step
step-connects_example = step-connects fresh (started "u" 0) (omega arith)

abbrev glued : ReconnectController
glued = new_controller default_policy all_ops observed false

run-connects_unshared_example :
    connects (run glued (transport_closed steady transport_error ∷ job 7 retry ∷ [])).1 ≡ 0
run-connects_unshared_example =
    run-connects_unshared glued (transport_closed steady transport_error ∷ job 7 retry ∷ [])
      (tt, (tt, tt)) refl

abbrev waiting : ReconnectController
waiting = record fresh { reconnect_scheduled = true }
