-- ===== src/TestClient/Quiet.antt =====
-- The controller of the glue, which no shared_ptr owns, never signals that the client is online.
use ocppwo.Common.{
  ℕ, ◌≡◌, refl, Bool, true, false, some, List, [], ◌∷◌, String, arith, All, All-append,
  if◌then◌else◌,
}
use ocppwo.Glue.{
  CloseStep, notify_controller, connect_failed, close_completed, ReconnectGlue,
  Action as GlueAction, observed,
}
use ocppwo.Glue.Ops.{
  Event as GlueEvent, started, stopped, accepted, connected as opened, closed, fired,
  step as glue_step, take_up as glue_take_up, take_all as glue_take_all, control, close_step,
  run_closes, client_closed, client_connected,
}
use ocppwo.Reconnect.{
  ReconnectController, Job, retry, resume, Effect, signal_connecting, signal_connected,
  signal_online, signal_offline, signal_closed, signal_backoff, connect, close, post,
  transport_error, disconnected, inc64,
}
use ocppwo.Reconnect.Control.{
  start, stop, close_done, on_transport_close, on_boot_accepted, connect_done, job_runs,
  try_reconnect, schedule_reconnect, on_transport_open,
}

-- The controller has posting, and no shared_ptr owns it.
abbrev pub IsAlone : ReconnectController → Type 0
IsAlone c = (c.shared ≡ false) × (c.ops.post_after ≡ true)

abbrev pub IsNotOnline : Effect → Type 0
IsNotOnline signal_online = ⊥
IsNotOnline _ = Unit

-- A method that keeps this, and does not signal that the connection is online.
abbrev Stays : ReconnectController × List Effect → Type 0
Stays (c, effects) = IsAlone c × All IsNotOnline effects

All-if : (b : Bool) (e : Effect) → IsNotOnline e → All IsNotOnline (if b then e ∷ [] else [])
All-if true e h = (h, tt)
All-if false e h = tt

try_reconnect-Stays : (now : ℕ) (c : ReconnectController) → IsAlone c → Stays (try_reconnect now c)
unfolding try_reconnect
try_reconnect-Stays now c h = ground (arith, h)

start-Stays :
    (url : String) (now : ℕ) (c : ReconnectController) → IsAlone c → Stays (start url now c)
unfolding start
start-Stays url now c h = ground (arith, h, try_reconnect-Stays now (record c { url = url }) h)

stop-Stays : (c : ReconnectController) → IsAlone c → Stays (stop c)
unfolding stop
stop-Stays c h = ground (arith, h)

schedule_reconnect-Stays :
    (jitter : ℕ → ℕ) (c : ReconnectController) → IsAlone c → Stays (schedule_reconnect jitter c)
unfolding schedule_reconnect
schedule_reconnect-Stays jitter c h = ground (arith, h)

on_transport_close-Stays :
    (jitter : ℕ → ℕ) (c : ReconnectController)
    → IsAlone c
    → Stays (on_transport_close jitter transport_error c)
unfolding on_transport_close
on_transport_close-Stays jitter c h = ground (
  arith,
  h,
  schedule_reconnect-Stays jitter
      (record c {
        state = disconnected;
        metrics = record c.metrics { last_disconnect_reason = some transport_error };
      })
      h,
)

connect_done-Stays :
    (now : ℕ) (jitter : ℕ → ℕ) (b : Bool) (c : ReconnectController)
    → IsAlone c
    → Stays (connect_done now jitter b c)
unfolding connect_done on_transport_open
connect_done-Stays now jitter true c h = ground (arith, h)
connect_done-Stays now jitter false c h =
    schedule_reconnect-Stays jitter
      (record c {
        state = disconnected;
        metrics = record c.metrics {
          reconnect_attempts_failed = inc64 c.metrics.reconnect_attempts_failed;
        };
      })
      h

on_boot_accepted-Stays : (c : ReconnectController) → IsAlone c → Stays (on_boot_accepted c)
unfolding on_boot_accepted
on_boot_accepted-Stays c h = rw h.1 ((h.0, refl), (tt, tt))

job_runs-Stays :
    (now : ℕ) (j : Job) (c : ReconnectController) → IsAlone c → Stays (job_runs now j c)
unfolding job_runs
job_runs-Stays now resume c h = ground (arith, h)
job_runs-Stays now retry c h = ground (arith, h)

-- What the glue observes is not that the connection is online.
abbrev pub IsSilent : GlueAction → Type 0
IsSilent (observed e) = IsNotOnline e
IsSilent _ = Unit

abbrev pub Rests : ReconnectGlue × List GlueAction → Type 0
Rests (g, actions) = IsAlone g.rc × All IsSilent actions

take_up-Rests :
    (e : Effect) (g : ReconnectGlue) → IsAlone g.rc → IsNotOnline e → Rests (glue_take_up e g)
unfolding glue_take_up
take_up-Rests (connect url) g h n = (h, (tt, tt))
take_up-Rests close g h n = (h, (tt, tt))
take_up-Rests (post delay j) g h n = (h, (tt, tt))
take_up-Rests signal_connecting g h n = (h, (tt, tt))
take_up-Rests signal_connected g h n = (h, (tt, tt))
take_up-Rests signal_online g h n = absurd n
take_up-Rests signal_offline g h n = (h, (tt, tt))
take_up-Rests (signal_closed why) g h n = (h, (tt, tt))
take_up-Rests (signal_backoff delay) g h n = (h, (tt, tt))

take_effects-Rests :
    (es : List Effect) (g : ReconnectGlue)
    → IsAlone g.rc
    → All IsNotOnline es
    → Rests (glue_take_all es g)
unfolding glue_take_all
take_effects-Rests [] g h n = (h, tt)
take_effects-Rests (e ∷ es) g h n =
    let (h', a) = take_up-Rests e g h n.0 in
    let (h'', b) = take_effects-Rests es (glue_take_up e g).0 h' n.1 in
    (h'', All-append (glue_take_up e g).1 (glue_take_all es (glue_take_up e g).0).1 IsSilent a b)

control-Rests :
    (method : ReconnectController → ReconnectController × List Effect) (g : ReconnectGlue)
    → Stays (method g.rc)
    → Rests (control method g)
control-Rests method g s =
    take_effects-Rests (method g.rc).1 (record g { rc = (method g.rc).0 }) s.0 s.1

close_step-Stays :
    (now : ℕ) (jitter : ℕ → ℕ) (c : CloseStep) (rc : ReconnectController)
    → IsAlone rc
    → Stays (close_step now jitter c rc)
unfolding close_done
close_step-Stays now jitter notify_controller rc h = on_transport_close-Stays jitter rc h
close_step-Stays now jitter connect_failed rc h = connect_done-Stays now jitter false rc h
close_step-Stays now jitter close_completed rc h = (h, tt)

run_closes-Rests :
    (now : ℕ) (jitter : ℕ → ℕ) (cs : List CloseStep) (g : ReconnectGlue)
    → IsAlone g.rc
    → Rests (run_closes now jitter cs g)
unfolding run_closes
run_closes-Rests now jitter [] g h = (h, tt)
run_closes-Rests now jitter (c ∷ cs) g h =
    let o = control (close_step now jitter c) g in
    let (h', a) =
      control-Rests (close_step now jitter c) g (close_step-Stays now jitter c g.rc h) in
    let (h'', b) = run_closes-Rests now jitter cs o.0 h' in
    (h'', All-append o.1 (run_closes now jitter cs o.0).1 IsSilent a b)

pub glue_step-Rests : (g : ReconnectGlue) (e : GlueEvent) → IsAlone g.rc → Rests (glue_step g e)
unfolding glue_step client_closed client_connected
glue_step-Rests g (started url now) h = control-Rests (start url now) g (start-Stays url now g.rc h)
glue_step-Rests g stopped h = control-Rests stop g (stop-Stays g.rc h)
glue_step-Rests g accepted h = control-Rests on_boot_accepted g (on_boot_accepted-Stays g.rc h)
glue_step-Rests g (opened now jitter) h =
    control-Rests (connect_done now jitter true) g (connect_done-Stays now jitter true g.rc h)
glue_step-Rests g (closed now jitter) h = run_closes-Rests now jitter g.on_closed _ h
glue_step-Rests g (fired now j) h = control-Rests (job_runs now j) g (job_runs-Stays now j g.rc h)
