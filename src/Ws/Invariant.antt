-- ===== src/Ws/Invariant.antt =====
-- What holds of the write pipeline at all times.
use ocppwo.Common.{
  ◌≤◌, ◌≡◌, refl, Bool, true, false, not, List, [], ◌∷◌, String, length, length-append, All,
  All-snoc, if◌then◌else◌, arith,
}
use ocppwo.Metrics.{Metrics}
use ocppwo.Ws.{WsClient, new_client}
use ocppwo.Ws.Lifecycle.{connect_done, handshake_done, read_failed, read_done, force_drop_task}
use ocppwo.Ws.Machine.{
  Task, send, close, async_close, drop, Machine, perform, after, run_task, complete_write,
  complete_close, Event, send_called, close_called, drop_called, task_runs, write_completes,
  close_completes, connect_completes, handshake_completes, read_fails, read_completes, step, run,
  idle,
}
use ocppwo.Ws.Writes.{is_empty, send_task, write_done, close_task}

-- A write is in progress exactly while the queue holds something, one at a time; the counters
-- follow the queue, which holds at most 1001 texts; the maximum of writes in flight is still 0, and
-- no close has started.
pub record IsSound {K : Type 0} (c : WsClient K) : Type 0 where
  pub busy : c.write_in_progress ≡ not (is_empty c.write_queue)
  pub in_flight : c.writes_in_flight ≡ (if is_empty c.write_queue then 0 else 1)
  pub depth : c.current_write_queue_depth ≡ length c.write_queue
  pub bounded : length c.write_queue ≤ 1001
  pub unseen : c.max_writes_in_flight ≡ 0
  pub open_still : c.close_started ≡ false

-- A task that is not the one that `tentative_close` posts to call async_close.
abbrev pub IsNoClose : Task → Type 0
IsNoClose (send text) = Unit
IsNoClose close = Unit
IsNoClose async_close = ⊥
IsNoClose (drop graceful) = Unit

-- The invariant of the machine: Boost is writing exactly when the client thinks so, and
-- `tentative_close` has not asked it to close.
pub record IsRunning {K : Type 0} (m : Machine K) : Type 0 where
  pub sound : IsSound m.client
  pub linked : m.writing ≡ m.client.write_in_progress
  pub unasked : All IsNoClose m.tasks
  pub unclosed : m.closing ≡ false

module _ {K : Type 0} where
  send-IsRunning :
      (text : String) (rest : List Task) (m : Machine K)
      → IsRunning m
      → All IsNoClose rest
      → IsRunning (after (send_task text m.client) (record m { tasks = rest }))
  unfolding send_task perform
  send-IsRunning text rest m r n = go m.client.write_queue refl
    where
      go :
          (q : List String)
          → m.client.write_queue ≡ q
          → IsRunning (after (send_task text m.client) (record m { tasks = rest }))
      go [] e = ground (arith, length-append m.client.write_queue (text ∷ []))
      go (x ∷ q) e = ground (arith, length-append m.client.write_queue (text ∷ []))

  close-IsRunning :
      (rest : List Task) (m : Machine K)
      → IsRunning m
      → All IsNoClose rest
      → IsRunning (after (close_task m.client) (record m { tasks = rest }))
  unfolding close_task perform
  close-IsRunning rest m r n = go m.client.write_queue refl
    where
      go :
          (q : List String)
          → m.client.write_queue ≡ q
          → IsRunning (after (close_task m.client) (record m { tasks = rest }))
      go [] e = ground arith
      go (x ∷ q) e = ground arith

  run_task-IsRunning :
      (ts : List Task) (m : Machine K) → IsRunning m → All IsNoClose ts → IsRunning (run_task ts m)
  unfolding run_task force_drop_task perform
  run_task-IsRunning [] m r n = r
  run_task-IsRunning (send text ∷ rest) m r n = send-IsRunning text rest m r n.1
  run_task-IsRunning (close ∷ rest) m r n = close-IsRunning rest m r n.1
  run_task-IsRunning (async_close ∷ rest) m r n = absurd n.0
  run_task-IsRunning (drop true ∷ rest) m r n = ground (arith, n.1)
  run_task-IsRunning (drop false ∷ rest) m r n = ground (arith, n.1)

  write_done-IsRunning :
      (m : Machine K)
      → IsRunning m
      → m.writing ≡ true
      → IsRunning (after (write_done m.client) (record m { writing = false }))
  unfolding write_done perform
  write_done-IsRunning m r w = go m.client.write_queue refl
    where
      go :
          (q : List String)
          → m.client.write_queue ≡ q
          → IsRunning (after (write_done m.client) (record m { writing = false }))
      go [] e = ground arith
      go (x ∷ []) e = ground arith
      go (x ∷ y ∷ q) e = ground arith

  complete_write-IsRunning :
      (b : Bool) (m : Machine K) → m.writing ≡ b → IsRunning m → IsRunning (complete_write b m)
  unfolding complete_write
  complete_write-IsRunning false m e r = r
  complete_write-IsRunning true m e r = write_done-IsRunning m r e

  complete_close-IsRunning :
      (b : Bool) (m : Machine K) → b ≡ false → IsRunning m → IsRunning (complete_close b m)
  unfolding complete_close
  complete_close-IsRunning false m e r = r
  complete_close-IsRunning true m e r = cc

  connect-IsRunning :
      (b : Bool) (m : Machine K) → IsRunning m → IsRunning (after (connect_done b m.client) m)
  unfolding connect_done perform
  connect-IsRunning true m r = ground arith
  connect-IsRunning false m r = ground arith

  handshake-IsRunning :
      (b : Bool) (m : Machine K) → IsRunning m → IsRunning (after (handshake_done b m.client) m)
  unfolding handshake_done perform
  handshake-IsRunning true m r = ground arith
  handshake-IsRunning false m r = ground arith

  read_failed-IsRunning : (m : Machine K) → IsRunning m → IsRunning (after (read_failed m.client) m)
  unfolding read_failed perform
  read_failed-IsRunning m r = ground arith

  read_done-IsRunning :
      (text : String) (m : Machine K) → IsRunning m → IsRunning (after (read_done text m.client) m)
  unfolding read_done perform
  read_done-IsRunning text m r = ground arith

  pub step-IsRunning : (m : Machine K) (e : Event) → IsRunning m → IsRunning (step m e)
  unfolding step
  step-IsRunning m (send_called text) r = record {
    sound = r.sound;
    linked = r.linked;
    unasked = All-snoc m.tasks IsNoClose tt r.unasked;
    unclosed = r.unclosed;
  }
  step-IsRunning m close_called r = record {
    sound = r.sound;
    linked = r.linked;
    unasked = All-snoc m.tasks IsNoClose tt r.unasked;
    unclosed = r.unclosed;
  }
  step-IsRunning m (drop_called graceful) r = record {
    sound = r.sound;
    linked = r.linked;
    unasked = All-snoc m.tasks IsNoClose tt r.unasked;
    unclosed = r.unclosed;
  }
  step-IsRunning m task_runs r = run_task-IsRunning m.tasks m r r.unasked
  step-IsRunning m write_completes r = complete_write-IsRunning m.writing m refl r
  step-IsRunning m close_completes r = complete_close-IsRunning m.closing m r.unclosed r
  step-IsRunning m (connect_completes b) r = connect-IsRunning b m r
  step-IsRunning m (handshake_completes b) r = handshake-IsRunning b m r
  step-IsRunning m read_fails r = read_failed-IsRunning m r
  step-IsRunning m (read_completes text) r = read_done-IsRunning text m r

  pub run-IsRunning : (m : Machine K) (es : List Event) → IsRunning m → IsRunning (run m es)
  unfolding run
  run-IsRunning m [] r = r
  run-IsRunning m (e ∷ es) r = run-IsRunning (step m e) es (step-IsRunning m e r)

  pub new_client-IsRunning :
      (host port : String) (metrics : Metrics)
      → IsRunning (idle {K = K} (new_client host port metrics))
  new_client-IsRunning host port metrics = ground arith
