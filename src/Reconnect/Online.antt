-- ===== src/Reconnect/Online.antt =====
-- When the controller says that calls may be sent. Nothing but the tests asks `can_send`: the session
-- sends its calls whatever it answers.
use ocppwo.Common.{ℕ, ◌≡◌, refl, Bool, true, false, List, [], ◌∷◌, All, arith}
use ocppwo.Reconnect.{
  CloseReason, connected, ReconnectController, ReconnectPolicy, TransportOps, ReconnectSignals,
  retry, resume, new_controller,
}
use ocppwo.Reconnect.Control.{can_send}
use ocppwo.Reconnect.Steps.{
  Event, started, stopped, close_completes, transport_opened, transport_closed, boot_accepted,
  connect_completes, job, step, run,
}

-- The event is neither the boot notification's acceptance nor the end of the delay after one.
abbrev pub IsNoBoot : Event → Type 0
IsNoBoot boot_accepted = ⊥
IsNoBoot (job now resume) = ⊥
IsNoBoot _ = Unit

step-offline :
    (c : ReconnectController) (e : Event)
    → IsNoBoot e
    → c.online ≡ false
    → (step c e).0.online ≡ false
unfolding step
step-offline c (started url now) n h = ground arith
step-offline c stopped n h = ground arith
step-offline c close_completes n h = ground arith
step-offline c (transport_opened now) n h = ground arith
step-offline c (transport_closed jitter why) n h = ground arith
step-offline c boot_accepted n h = absurd n
step-offline c (connect_completes now jitter true) n h = ground arith
step-offline c (connect_completes now jitter false) n h = ground arith
step-offline c (job now retry) n h = ground arith
step-offline c (job now resume) n h = absurd n

run-offline :
    (c : ReconnectController) (es : List Event)
    → All IsNoBoot es
    → c.online ≡ false
    → (run c es).0.online ≡ false
unfolding run
run-offline c [] n h = h
run-offline c (e ∷ es) (n, ns) h = run-offline (step c e).0 es ns (step-offline c e n h)

-- From a new controller on, after any events among which no boot notification was accepted and no
-- delay after one ended, `can_send` answers false.
pub run-cannot_send :
    (p : ReconnectPolicy) (ops : TransportOps) (signals : ReconnectSignals) (shared : Bool)
    (es : List Event)
    → All IsNoBoot es
    → can_send (run (new_controller p ops signals shared) es).0 ≡ false
unfolding can_send
run-cannot_send p ops signals shared es n =
    rw (run-offline (new_controller p ops signals shared) es n refl)

-- After a loss of the transport and a new connection, a controller that was online and connected,
-- is shared, has timers and had no retry scheduled, says that calls may be sent before any boot
-- notification was accepted on the new connection.
pub reconnect-can_send :
    (c : ReconnectController) (jitter jitter' : ℕ → ℕ) (why : CloseReason) (now later : ℕ)
    → c.online ≡ true
    → c.state ≡ connected
    → c.shared ≡ true
    → c.ops.post_after ≡ true
    → c.reconnect_scheduled ≡ false
    → can_send
        (run c (
          transport_closed jitter why
          ∷ job now retry
          ∷ connect_completes later jitter' true
          ∷ [])).0
      ≡ true
unfolding run step can_send
reconnect-can_send c jitter jitter' why now later o s h p n = ground arith
