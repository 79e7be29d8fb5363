-- ===== src/Ws/Refine.antt =====
-- The write half of the client is an outbox.
use ocppwo.Common.{◌≡◌, refl, ap, ◌∙◌, Bool, true, false, List, [], ◌∷◌, String, arith, All}
use ocppwo.Metrics.{Metrics}
use ocppwo.Ws.{new_client}
use ocppwo.Ws.Lifecycle.{connect_done, handshake_done, read_failed, read_done, force_drop_task}
use ocppwo.Ws.Machine.{
  Task, send, close, async_close, drop, Machine, perform, after, run_task, complete_write,
  complete_close, Event, send_called, close_called, drop_called, task_runs, write_completes,
  close_completes, connect_completes, handshake_completes, read_fails, read_completes, step, run,
  idle,
}
use ocppwo.Ws.Writes.{send_task, write_done, close_task}
use ocppwo.Ws.Invariant.{IsRunning, IsNoClose, step-IsRunning, new_client-IsRunning}
use ocppwo.Ws.Outbox.{serve, finish, follow, follow_all, outbox}

module _ {K : Type 0} where
  send-outbox :
      (text : String) (rest : List Task) (m : Machine K)
      → IsRunning m
      → outbox (after (send_task text m.client) (record m { tasks = rest }))
        ≡ serve (send text ∷ rest) (outbox m)
  unfolding send_task perform
  send-outbox text rest m r = go m.client.write_queue refl
    where
      go :
          (q : List String)
          → m.client.write_queue ≡ q
          → outbox (after (send_task text m.client) (record m { tasks = rest }))
            ≡ serve (send text ∷ rest) (outbox m)
      go [] e = ground arith
      go (x ∷ q) e = ground arith

  close-outbox :
      (rest : List Task) (m : Machine K)
      → IsRunning m
      → outbox (after (close_task m.client) (record m { tasks = rest }))
        ≡ serve (close ∷ rest) (outbox m)
  unfolding close_task perform
  close-outbox rest m r = go m.client.write_queue refl
    where
      go :
          (q : List String)
          → m.client.write_queue ≡ q
          → outbox (after (close_task m.client) (record m { tasks = rest }))
            ≡ serve (close ∷ rest) (outbox m)
      go [] e = ground arith
      go (x ∷ q) e = ground arith

  run_task-outbox :
      (ts : List Task) (m : Machine K)
      → IsRunning m
      → All IsNoClose ts
      → m.tasks ≡ ts
      → outbox (run_task ts m) ≡ serve ts (outbox m)
  unfolding run_task force_drop_task perform
  run_task-outbox [] m r n e = refl
  run_task-outbox (send text ∷ rest) m r n e = send-outbox text rest m r
  run_task-outbox (close ∷ rest) m r n e = close-outbox rest m r
  run_task-outbox (async_close ∷ rest) m r n e = absurd n.0
  run_task-outbox (drop true ∷ rest) m r n e = refl
  run_task-outbox (drop false ∷ rest) m r n e = refl

  write-outbox :
      (b : Bool) (m : Machine K)
      → m.writing ≡ b
      → IsRunning m
      → outbox (complete_write b m) ≡ finish m.client.write_queue (outbox m)
  unfolding complete_write write_done perform
  write-outbox b m e r = go b m.client.write_queue e refl
    where
      go :
          (b : Bool) (q : List String)
          → m.writing ≡ b
          → m.client.write_queue ≡ q
          → outbox (complete_write b m) ≡ finish m.client.write_queue (outbox m)
      go false [] w e = ground arith
      go false (x ∷ q) w e = ground arith
      go true [] w e = ground arith
      go true (x ∷ []) w e = ground arith
      go true (x ∷ y ∷ q) w e = ground arith

  step-outbox : (m : Machine K) (e : Event) → IsRunning m → outbox (step m e) ≡ follow (outbox m) e
  unfolding step connect_done handshake_done read_failed read_done perform complete_close
  step-outbox m (send_called text) r = refl
  step-outbox m close_called r = refl
  step-outbox m (drop_called graceful) r = refl
  step-outbox m task_runs r = run_task-outbox m.tasks m r r.unasked refl
  step-outbox m write_completes r = write-outbox m.writing m refl r
  step-outbox m close_completes r = ground arith
  step-outbox m (connect_completes b) r = ground arith
  step-outbox m (handshake_completes b) r = ground arith
  step-outbox m read_fails r = ground arith
  step-outbox m (read_completes text) r = ground arith

  runs-outbox :
      (m : Machine K) (es : List Event) → IsRunning m → outbox (run m es) ≡ follow_all (outbox m) es
  unfolding run
  runs-outbox m [] r = refl
  runs-outbox m (e ∷ es) r =
      runs-outbox (step m e) es (step-IsRunning m e r)
      ∙ ap (λ b. follow_all b es) (step-outbox m e r)

-- The client and its strand refine the outbox: after any sequence of calls and completions from a
-- new client on, the tasks, the queue, the pending close and the texts whose writing was started
-- are those of an outbox under the same events, which has no counters and no progress flags.
pub run-outbox :
    (K : Type 0) (host port : String) (metrics : Metrics) (es : List Event)
    → outbox (run (idle {K = K} (new_client host port metrics)) es)
      ≡ follow_all (record { asked = []; waiting = []; shut = false; begun = [] }) es
run-outbox K host port metrics es =
    runs-outbox (idle {K = K} (new_client host port metrics)) es
      (new_client-IsRunning host port metrics)
