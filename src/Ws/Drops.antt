-- ===== src/Ws/Drops.antt =====
-- What starts a closing handshake: only a graceful `force_drop`, which only the caller asks for.
use ocppwo.Common.{◌≡◌, refl, Bool, true, false, List, [], ◌∷◌, String, All, All-snoc, arith}
use ocppwo.Ws.Writes.{send_task, do_write, write_done, close_task, close_done}
use ocppwo.Ws.Lifecycle.{connect_done, handshake_done, read_failed, read_done, force_drop_task}
use ocppwo.Ws.Machine.{
  Task, send, close, async_close, drop, Machine, perform, after, run_task, complete_write,
  complete_close, Event, send_called, close_called, drop_called, task_runs, write_completes,
  close_completes, connect_completes, handshake_completes, read_fails, read_completes, step, run,
}

-- An event that is not the call of a graceful drop, and a task that is not its task.
abbrev pub IsNoDrop : Event → Type 0
IsNoDrop (drop_called true) = ⊥
IsNoDrop _ = Unit

abbrev IsNoDropTask : Task → Type 0
IsNoDropTask (drop true) = ⊥
IsNoDropTask _ = Unit

-- No graceful drop is posted or has run.
pub record IsUndropped {K : Type 0} (m : Machine K) : Type 0 where
  pub unposted : All IsNoDropTask m.tasks
  pub unrun : m.quiet_closing ≡ false

module _ {K : Type 0} where
  send-IsUndropped :
      (text : String) (rest : List Task) (m : Machine K)
      → m.quiet_closing ≡ false
      → All IsNoDropTask rest
      → IsUndropped (after (send_task text m.client) (record m { tasks = rest }))
  unfolding send_task do_write perform
  send-IsUndropped text rest m unrun n = go m.client.write_queue refl
    where
      go :
          (q : List String)
          → m.client.write_queue ≡ q
          → IsUndropped (after (send_task text m.client) (record m { tasks = rest }))
      go [] e = ground arith
      go (x ∷ q) e = ground arith

  close-IsUndropped :
      (rest : List Task) (m : Machine K)
      → m.quiet_closing ≡ false
      → All IsNoDropTask rest
      → IsUndropped (after (close_task m.client) (record m { tasks = rest }))
  unfolding close_task perform
  close-IsUndropped rest m unrun n =
      ground (arith, All-snoc rest IsNoDropTask {y = async_close} tt n)

  run_task-IsUndropped :
      (ts : List Task) (m : Machine K)
      → IsUndropped m
      → All IsNoDropTask ts
      → IsUndropped (run_task ts m)
  unfolding run_task force_drop_task perform
  run_task-IsUndropped [] m u n = u
  run_task-IsUndropped (send text ∷ rest) m u n = send-IsUndropped text rest m u.unrun n.1
  run_task-IsUndropped (close ∷ rest) m u n = close-IsUndropped rest m u.unrun n.1
  run_task-IsUndropped (async_close ∷ rest) m u n = record { unposted = n.1; unrun = u.unrun }
  run_task-IsUndropped (drop true ∷ rest) m u n = absurd n.0
  run_task-IsUndropped (drop false ∷ rest) m u n = record { unposted = n.1; unrun = u.unrun }

  write-IsUndropped : (b : Bool) (m : Machine K) → IsUndropped m → IsUndropped (complete_write b m)
  unfolding complete_write write_done do_write perform
  write-IsUndropped false m u = u
  write-IsUndropped true m u = go m.client.write_queue refl
    where
      go : (q : List String) → m.client.write_queue ≡ q → IsUndropped (complete_write true m)
      go [] e = ground (arith, All-snoc m.tasks IsNoDropTask {y = async_close} tt u.unposted)
      go (x ∷ []) e = ground (arith, All-snoc m.tasks IsNoDropTask {y = async_close} tt u.unposted)
      go (x ∷ y ∷ q) e = ground arith

  step-IsUndropped :
      (m : Machine K) (e : Event) → IsUndropped m → IsNoDrop e → IsUndropped (step m e)
  unfolding step connect_done handshake_done read_failed read_done perform complete_close close_done
  step-IsUndropped m (send_called text) u n = record {
    unposted = All-snoc m.tasks IsNoDropTask tt u.unposted;
    unrun = u.unrun;
  }
  step-IsUndropped m close_called u n = record {
    unposted = All-snoc m.tasks IsNoDropTask tt u.unposted;
    unrun = u.unrun;
  }
  step-IsUndropped m (drop_called false) u n = record {
    unposted = All-snoc m.tasks IsNoDropTask tt u.unposted;
    unrun = u.unrun;
  }
  step-IsUndropped m (drop_called true) u n = absurd n
  step-IsUndropped m task_runs u n = run_task-IsUndropped m.tasks m u u.unposted
  step-IsUndropped m write_completes u n = write-IsUndropped m.writing m u
  step-IsUndropped m close_completes u n = ground arith
  step-IsUndropped m (connect_completes b) u n = ground arith
  step-IsUndropped m (handshake_completes b) u n = ground arith
  step-IsUndropped m read_fails u n = ground arith
  step-IsUndropped m (read_completes text) u n = ground arith

  pub run-IsUndropped :
      (m : Machine K) (es : List Event)
      → IsUndropped m
      → All IsNoDrop es
      → (run m es).quiet_closing ≡ false
  unfolding run
  run-IsUndropped m [] u n = u.unrun
  run-IsUndropped m (e ∷ es) u n = run-IsUndropped (step m e) es (step-IsUndropped m e u n.0) n.1
