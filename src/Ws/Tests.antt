-- ===== src/Ws/Tests.antt =====
-- The client on a run: three texts, of which the last comes after the close was asked for.
use ocppwo.Common.{
  ℕ, ◌≡◌, ◌≤◌, refl, true, false, List, [], ◌∷◌, ◌++◌, length, none, some, get_elem?, arith,
  if◌then◌else◌, All,
}
use ocppwo.Metrics.{no_metrics}
use ocppwo.Ws.{new_client, connected, resolve}
use ocppwo.Ws.Writes.{
  is_empty, transport_max_writes_in_flight, transport_current_write_queue_depth, send_task,
  write_done, close_task,
}
use ocppwo.Ws.Machine.{
  Machine, Event, send_called, close_called, drop_called, task_runs, write_completes, step, run,
  idle,
}
use ocppwo.Ws.Invariant.{IsNoClose, new_client-IsRunning}
use ocppwo.Ws.Order.{accepted, outbound, run-outbound}
use ocppwo.Ws.Futures.{plain, Watched, start_future, handle}
use ocppwo.Ws.Promises.{start_future_lem}
use ocppwo.Ws.Lifecycle.{resolve_done, connect_done, handshake_done, read_failed}
use ocppwo.Ws.Outbox.{Outbox, outbox, follow_all}
use ocppwo.Ws.Refine.{run-outbox}
use ocppwo.Ws.Closing.{run-never_closes, run_pipeline}

abbrev fresh : Machine ℕ
fresh = idle (new_client "127.0.0.1" "12345" no_metrics)

abbrev busy_run : List Event
busy_run =
    send_called "one"
    ∷ send_called "two"
    ∷ task_runs
    ∷ task_runs
    ∷ close_called
    ∷ send_called "late"
    ∷ task_runs
    ∷ task_runs
    ∷ write_completes
    ∷ write_completes
    ∷ []

started_both : (run fresh busy_run).started ≡ "one" ∷ "two" ∷ []
unfolding run step send_task write_done close_task
started_both = refl

drained : (run fresh busy_run).client.write_queue ≡ []
unfolding run step send_task write_done close_task
drained = refl

accepted_both : accepted fresh busy_run ≡ "one" ∷ "two" ∷ []
unfolding accepted step send_task write_done close_task
accepted_both = refl

run-outbound_example : outbound (run fresh busy_run) ≡ outbound fresh ++ accepted fresh busy_run
run-outbound_example =
    run-outbound fresh busy_run (new_client-IsRunning "127.0.0.1" "12345" no_metrics)

-- The same run, and the connection is dropped without a handshake.
abbrev dropped_run : List Event
dropped_run = drop_called false ∷ task_runs ∷ busy_run

run-never_closes_example :
    ((run fresh dropped_run).client.close_started ≡ false)
    × All IsNoClose (run fresh dropped_run).tasks
    × ((run fresh dropped_run).closing ≡ false)
    × ((run fresh dropped_run).quiet_closing ≡ false)
run-never_closes_example =
    run-never_closes ℕ "127.0.0.1" "12345" no_metrics dropped_run
      (tt, (tt, (tt, (tt, (tt, (tt, (tt, (tt, (tt, (tt, (tt, (tt, tt))))))))))))

-- A graceful drop does start one.
dropped_closes : (run fresh (drop_called true ∷ task_runs ∷ [])).quiet_closing ≡ true
unfolding run step
dropped_closes = refl

run_pipeline_example :
    ((run fresh busy_run).client.writes_in_flight
      ≡ (if is_empty (run fresh busy_run).client.write_queue then 0 else 1))
    × ((run fresh busy_run).writing ≡ (run fresh busy_run).client.write_in_progress)
    × (transport_current_write_queue_depth (run fresh busy_run).client
        ≡ length (run fresh busy_run).client.write_queue)
    × (length (run fresh busy_run).client.write_queue ≤ 1001)
    × (transport_max_writes_in_flight (run fresh busy_run).client ≡ 0)
run_pipeline_example = run_pipeline ℕ "127.0.0.1" "12345" no_metrics busy_run

run-outbox_example :
    outbox (run fresh busy_run)
    ≡ follow_all (record { asked = []; waiting = []; shut = false; begun = [] }) busy_run
run-outbox_example = run-outbox ℕ "127.0.0.1" "12345" no_metrics busy_run

-- The outbox on the same run: both texts written, the late one refused.
abbrev at_end : Outbox
at_end = record { asked = []; waiting = []; shut = true; begun = "one" ∷ "two" ∷ [] }

outbox_runs :
    follow_all (record { asked = []; waiting = []; shut = false; begun = [] }) busy_run ≡ at_end
outbox_runs = refl

-- A client whose start was watched before, and whose user has set a callback.
abbrev watched : Watched
watched =
    (start_future (record {
      client = record (new_client "127.0.0.1" "12345" no_metrics) { on_connected = some (plain 7) };
      promises = [];
      called = [];
    })).0

start_future_lem_example :
    let (v, actions) = start_future watched in
    let ready = λ (u : Watched). get_elem? u.promises (length watched.promises) in
    (actions ≡ resolve ∷ [])
    × (ready v ≡ some none)
    × (ready (handle (handshake_done false) v) ≡ some (some true))
    × ((handle (handshake_done false) v).called ≡ (handle (handshake_done false) watched).called)
    × (ready (handle (handshake_done true) v) ≡ some (some false))
    × (ready (handle read_failed (record v { client = record v.client { state = connected } }))
        ≡ some (some false))
    × ((resolve_done true v.client).1 ≡ [])
    × (ready (handle (resolve_done true) v) ≡ some none)
    × ((connect_done true v.client).1 ≡ [])
    × (ready (handle (connect_done true) v) ≡ some none)
unfolding start_future
start_future_lem_example = start_future_lem watched (omega arith) (omega arith)
