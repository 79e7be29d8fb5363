-- ===== src/Glue/Closes.antt =====
-- What accumulates in the close callback.
use ocppwo.Common.{ap, ℕ, suc, ◌+◌, ◌%◌, ◌^◌, ◌<◌, ◌≡◌, refl, ◌∙◌, true, List, [], ◌∷◌, ◌++◌, arith}
use ocppwo.Reconnect.{
  ReconnectController, ReconnectSignals, Effect, connect, close, post, signal_connecting,
  signal_connected, signal_online, signal_offline, signal_closed, signal_backoff,
}
use ocppwo.Reconnect.Control.{
  start, stop, close_done, on_transport_close, on_boot_accepted, connect_done, job_runs,
  schedule_reconnect,
}
use ocppwo.Glue.{
  CloseStep, notify_controller, connect_failed, close_completed, ReconnectGlue, Action,
  start_client, close_client, post_after, observed, create,
}
use ocppwo.Glue.Ops.{
  take_up, take_all, control, close_step, run_closes, keep_steps, client_closed, client_connected,
  Event, started, stopped, accepted, connected, closed, fired, step, run,
}

-- The failures that a close reports.
abbrev pub failures : List CloseStep → ℕ
failures [] = 0
failures (connect_failed ∷ cs) = suc (failures cs)
failures (notify_controller ∷ cs) = failures cs
failures (close_completed ∷ cs) = failures cs

abbrev pub starts : List Action → ℕ
starts [] = 0
starts (start_client ∷ rest) = suc (starts rest)
starts (close_client ∷ rest) = starts rest
starts (post_after delay j ∷ rest) = starts rest
starts (observed e ∷ rest) = starts rest

failures-append : (xs ys : List CloseStep) → failures (xs ++ ys) ≡ failures xs + failures ys
failures-append [] ys = omega arith
failures-append (connect_failed ∷ xs) ys = omega (arith, failures-append xs ys)
failures-append (notify_controller ∷ xs) ys = failures-append xs ys
failures-append (close_completed ∷ xs) ys = failures-append xs ys

starts-append : (xs ys : List Action) → starts (xs ++ ys) ≡ starts xs + starts ys
starts-append [] ys = omega arith
starts-append (start_client ∷ xs) ys = omega (arith, starts-append xs ys)
starts-append (close_client ∷ xs) ys = starts-append xs ys
starts-append (post_after delay j ∷ xs) ys = starts-append xs ys
starts-append (observed e ∷ xs) ys = starts-append xs ys

-- Each start of the client adds one failure to the next close.
abbrev Adds : ReconnectGlue → ReconnectGlue × List Action → Type 0
Adds g o = failures o.0.on_closed ≡ failures g.on_closed + starts o.1

take_up-Adds : (e : Effect) (g : ReconnectGlue) → Adds g (take_up e g)
unfolding take_up
take_up-Adds (connect url) g = omega (arith, failures-append g.on_closed (connect_failed ∷ []))
take_up-Adds close g = omega (arith, failures-append g.on_closed (close_completed ∷ []))
take_up-Adds (post delay j) g = omega arith
take_up-Adds signal_connecting g = omega arith
take_up-Adds signal_connected g = omega arith
take_up-Adds signal_online g = omega arith
take_up-Adds signal_offline g = omega arith
take_up-Adds (signal_closed why) g = omega arith
take_up-Adds (signal_backoff delay) g = omega arith

take_all-Adds : (es : List Effect) (g : ReconnectGlue) → Adds g (take_all es g)
unfolding take_all
take_all-Adds [] g = omega arith
take_all-Adds (e ∷ es) g = omega (
  arith,
  take_up-Adds e g,
  take_all-Adds es (take_up e g).0,
  starts-append (take_up e g).1 (take_all es (take_up e g).0).1,
)

run_closes-Adds :
    (now : ℕ) (jitter : ℕ → ℕ) (cs : List CloseStep) (g : ReconnectGlue)
    → Adds g (run_closes now jitter cs g)
unfolding run_closes
run_closes-Adds now jitter [] g = omega arith
run_closes-Adds now jitter (c ∷ cs) g =
    let o = control (close_step now jitter c) g in
    omega (
      arith,
      take_all-Adds (close_step now jitter c g.rc).1
          (record g { rc = (close_step now jitter c g.rc).0 }),
      run_closes-Adds now jitter cs o.0,
      starts-append o.1 (run_closes now jitter cs o.0).1,
    )

failures-keep_steps : (cs : List CloseStep) → failures (keep_steps cs) ≡ failures cs
unfolding keep_steps
failures-keep_steps [] = refl
failures-keep_steps (connect_failed ∷ cs) = omega (arith, failures-keep_steps cs)
failures-keep_steps (notify_controller ∷ cs) = failures-keep_steps cs
failures-keep_steps (close_completed ∷ cs) = failures-keep_steps cs

control-Adds :
    (method : ReconnectController → ReconnectController × List Effect) (g : ReconnectGlue)
    → Adds g (control method g)
control-Adds method g = take_all-Adds (method g.rc).1 (record g { rc = (method g.rc).0 })

step-Adds : (g : ReconnectGlue) (e : Event) → Adds g (step g e)
unfolding step client_connected client_closed
step-Adds g (started url now) = control-Adds (start url now) g
step-Adds g stopped = control-Adds stop g
step-Adds g accepted = control-Adds on_boot_accepted g
step-Adds g (connected now jitter) = control-Adds (connect_done now jitter true) g
step-Adds g (closed now jitter) = omega (
  arith,
  failures-keep_steps g.on_closed,
  run_closes-Adds now jitter g.on_closed (record g { on_closed = keep_steps g.on_closed }),
)
step-Adds g (fired now j) = control-Adds (job_runs now j) g

run-Adds : (g : ReconnectGlue) (es : List Event) → Adds g (run g es)
unfolding run
run-Adds g [] = omega arith
run-Adds g (e ∷ es) = omega (
  arith,
  step-Adds g e,
  run-Adds (step g e).0 es,
  starts-append (step g e).1 (run (step g e).0 es).1,
)

take_up-rc : (e : Effect) (g : ReconnectGlue) → (take_up e g).0.rc ≡ g.rc
unfolding take_up
take_up-rc (connect url) g = refl
take_up-rc close g = refl
take_up-rc (post delay j) g = refl
take_up-rc signal_connecting g = refl
take_up-rc signal_connected g = refl
take_up-rc signal_online g = refl
take_up-rc signal_offline g = refl
take_up-rc (signal_closed why) g = refl
take_up-rc (signal_backoff delay) g = refl

take_all-rc : (es : List Effect) (g : ReconnectGlue) → (take_all es g).0.rc ≡ g.rc
unfolding take_all
take_all-rc [] g = refl
take_all-rc (e ∷ es) g = take_all-rc es (take_up e g).0 ∙ take_up-rc e g

abbrev pub failed : ReconnectController → ℕ
failed c = c.metrics.reconnect_attempts_failed

close_step-failed :
    (now : ℕ) (jitter : ℕ → ℕ) (c : CloseStep) (rc : ReconnectController)
    → failed rc < 2 ^ 64
    → failed (close_step now jitter c rc).0 ≡ (failed rc + failures (c ∷ [])) % 2 ^ 64
unfolding on_transport_close connect_done close_done schedule_reconnect
close_step-failed now jitter notify_controller rc h = ground (arith, h)
close_step-failed now jitter connect_failed rc h = ground (arith, h)
close_step-failed now jitter close_completed rc h = ground (arith, h)

run_closes-failed :
    (now : ℕ) (jitter : ℕ → ℕ) (cs : List CloseStep) (g : ReconnectGlue)
    → failed g.rc < 2 ^ 64
    → failed (run_closes now jitter cs g).0.rc ≡ (failed g.rc + failures cs) % 2 ^ 64
unfolding run_closes
run_closes-failed now jitter [] g h = omega (arith, h)
run_closes-failed now jitter (c ∷ cs) g h =
    let o = control (close_step now jitter c) g in
    let one : failed o.0.rc ≡ (failed g.rc + failures (c ∷ [])) % 2 ^ 64 =
      ap failed (
        take_all-rc (close_step now jitter c g.rc).1
          (record g { rc = (close_step now jitter c g.rc).0 }))
      ∙ close_step-failed now jitter c g.rc h in
    omega (
      arith,
      one,
      run_closes-failed now jitter cs o.0 (omega (arith, one)),
      failures-append (c ∷ []) cs,
    )

-- After any events, one close of the client counts a failed attempt for every time that the client
-- was ever started, on a counter of 64 bits: the close callbacks of all earlier attempts run again.
pub client_closed-failed :
    (signals : ReconnectSignals) (es : List Event) (now : ℕ) (jitter : ℕ → ℕ)
    → failed (run (create signals) es).0.rc < 2 ^ 64
    → failed (client_closed now jitter (run (create signals) es).0).0.rc
      ≡ (failed (run (create signals) es).0.rc + starts (run (create signals) es).1) % 2 ^ 64
unfolding client_closed
client_closed-failed signals es now jitter h =
    let g = (run (create signals) es).0 in
    omega (
      arith,
      run-Adds (create signals) es,
      run_closes-failed now jitter g.on_closed (record g { on_closed = keep_steps g.on_closed }) h,
    )
