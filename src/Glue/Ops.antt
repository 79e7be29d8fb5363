-- ===== src/Glue/Ops.antt =====
-- The transport operations, and the client's callbacks.
use ocppwo.Common.{ℕ, true, false, List, [], ◌∷◌, ◌++◌, String}
use ocppwo.Reconnect.{ReconnectController, Job, Effect, connect, close, post, transport_error}
use ocppwo.Reconnect.Control.{
  start, stop, close_done, on_transport_close, on_boot_accepted, connect_done, job_runs,
}
use ocppwo.Glue.{
  CloseStep, notify_controller, connect_failed, close_completed, ReconnectGlue, Action,
  start_client, close_client, post_after, observed,
}

unfoldable pub take_up : Effect → ReconnectGlue → ReconnectGlue × List Action
take_up (connect url) g =
    (record g { on_closed = g.on_closed ++ connect_failed ∷ [] }, start_client ∷ [])
take_up close g = (record g { on_closed = g.on_closed ++ close_completed ∷ [] }, close_client ∷ [])
take_up (post delay j) g = (g, post_after delay j ∷ [])
take_up e g = (g, observed e ∷ [])

unfoldable pub take_all : List Effect → ReconnectGlue → ReconnectGlue × List Action
unfolding take_up
take_all [] g = (g, [])
take_all (e ∷ es) g =
    let (g', actions) = take_up e g in let (last, rest) = take_all es g' in (last, actions ++ rest)

-- A call of the controller's method.
abbrev pub control :
    (ReconnectController → ReconnectController × List Effect)
    → ReconnectGlue
    → ReconnectGlue × List Action
control method g = let (rc, effects) = method g.rc in take_all effects (record g { rc = rc })

abbrev pub close_step :
    ℕ → (ℕ → ℕ) → CloseStep → ReconnectController → ReconnectController × List Effect
close_step now jitter notify_controller c = on_transport_close jitter transport_error c
close_step now jitter connect_failed c = connect_done now jitter false c
close_step now jitter close_completed c = close_done c

unfoldable pub run_closes :
    ℕ → (ℕ → ℕ) → List CloseStep → ReconnectGlue → ReconnectGlue × List Action
unfolding take_all on_transport_close connect_done close_done
run_closes now jitter [] g = (g, [])
run_closes now jitter (c ∷ cs) g =
    let (g', actions) = control (close_step now jitter c) g in
    let (last, rest) = run_closes now jitter cs g' in (last, actions ++ rest)

-- The completion of async_close runs once.
unfoldable pub keep_steps : List CloseStep → List CloseStep
keep_steps [] = []
keep_steps (close_completed ∷ cs) = keep_steps cs
keep_steps (c ∷ cs) = c ∷ keep_steps cs

-- The client's close callback.
unfoldable pub client_closed : ℕ → (ℕ → ℕ) → ReconnectGlue → ReconnectGlue × List Action
unfolding run_closes keep_steps
client_closed now jitter g =
    run_closes now jitter g.on_closed (record g { on_closed = keep_steps g.on_closed })

-- The client's on_connected callback, the latest that was set.
unfoldable pub client_connected : ℕ → (ℕ → ℕ) → ReconnectGlue → ReconnectGlue × List Action
unfolding take_all connect_done
client_connected now jitter g = control (connect_done now jitter true) g

pub data Event : Type 0 where
  started : String → ℕ → Event
  stopped accepted : Event
  connected closed : ℕ → (ℕ → ℕ) → Event
  fired : ℕ → Job → Event

unfoldable pub step : ReconnectGlue → Event → ReconnectGlue × List Action
unfolding take_all start stop on_boot_accepted job_runs client_connected client_closed
step g (started url now) = control (start url now) g
step g stopped = control stop g
step g accepted = control on_boot_accepted g
step g (connected now jitter) = client_connected now jitter g
step g (closed now jitter) = client_closed now jitter g
step g (fired now j) = control (job_runs now j) g

unfoldable pub run : ReconnectGlue → List Event → ReconnectGlue × List Action
run g [] = (g, [])
run g (e ∷ es) =
    let (g', actions) = step g e in let (last, rest) = run g' es in (last, actions ++ rest)
