-- ===== src/Ws/Order.antt =====
-- The order in which texts are written.
use mathlib.Core.List.{append-nil, append_assoc}
use ocppwo.Common.{
  ◌≡◌, refl, sym, ◌∙◌, ap, Bool, true, false, List, [], ◌∷◌, ◌++◌, String, length, ltb,
  if◌then◌else◌, arith,
}
use ocppwo.Ws.{WsClient}
use ocppwo.Ws.Writes.{pop_front, send_task, write_done, close_task, close_done}
use ocppwo.Ws.Lifecycle.{connect_done, handshake_done, read_failed, read_done, force_drop_task}
use ocppwo.Ws.Machine.{
  Task, send, close, async_close, drop, Machine, perform, after, run_task, complete_write,
  complete_close, Event, send_called, close_called, drop_called, task_runs, write_completes,
  close_completes, connect_completes, handshake_completes, read_fails, read_completes, step, run,
}
use ocppwo.Ws.Invariant.{IsRunning, step-IsRunning}

module _ {K : Type 0} where
  -- What a task of the strand adds to the texts to be written: a send is dropped after a close was
  -- asked for, and while more than 1000 texts are queued.
  abbrev pub accepted_by : List Task → WsClient K → List String
  accepted_by (send text ∷ rest) c =
      if c.close_pending then [] else if ltb 1000 (length c.write_queue) then [] else text ∷ []
  accepted_by _ c = []

  abbrev pub accepted_at : Machine K → Event → List String
  accepted_at m task_runs = accepted_by m.tasks m.client
  accepted_at m _ = []

  -- All that is accepted during a run.
  unfoldable pub accepted : Machine K → List Event → List String
  accepted m [] = []
  accepted m (e ∷ es) = accepted_at m e ++ accepted (step m e) es

  -- What was given to Boost, and then what waits behind the text that is being written.
  abbrev pub outbound : Machine K → List String
  outbound m = m.started ++ pop_front m.client.write_queue

  send-outbound :
      (text : String) (rest : List Task) (m : Machine K)
      → IsRunning m
      → outbound (after (send_task text m.client) (record m { tasks = rest }))
        ≡ outbound m ++ accepted_by (send text ∷ rest) m.client
  unfolding send_task perform
  send-outbound text rest m r = go m.client.write_queue refl
    where
      go :
          (q : List String)
          → m.client.write_queue ≡ q
          → outbound (after (send_task text m.client) (record m { tasks = rest }))
            ≡ outbound m ++ accepted_by (send text ∷ rest) m.client
      go [] e = ground (
        arith,
        append-nil (m.started ++ text ∷ []),
        append-nil m.started,
        append-nil (m.started ++ []),
      )
      go (x ∷ q) e =
          ground (arith, append_assoc m.started q (text ∷ []), append-nil (m.started ++ q))

  close-outbound :
      (rest : List Task) (m : Machine K)
      → IsRunning m
      → outbound (after (close_task m.client) (record m { tasks = rest })) ≡ outbound m
  unfolding close_task perform
  close-outbound rest m r = ground arith

  write_done-outbound :
      (m : Machine K)
      → IsRunning m
      → outbound (after (write_done m.client) (record m { writing = false })) ≡ outbound m
  unfolding write_done perform
  write_done-outbound m r = go m.client.write_queue refl
    where
      go :
          (q : List String)
          → m.client.write_queue ≡ q
          → outbound (after (write_done m.client) (record m { writing = false })) ≡ outbound m
      go [] e = ground arith
      go (x ∷ []) e = ground arith
      go (x ∷ y ∷ q) e = ground (arith, append_assoc m.started (y ∷ []) q)

  run_task-outbound :
      (ts : List Task) (m : Machine K)
      → IsRunning m
      → outbound (run_task ts m) ≡ outbound m ++ accepted_by ts m.client
  unfolding run_task force_drop_task perform
  run_task-outbound [] m r = sym (append-nil _)
  run_task-outbound (send text ∷ rest) m r = send-outbound text rest m r
  run_task-outbound (close ∷ rest) m r = close-outbound rest m r ∙ sym (append-nil _)
  run_task-outbound (async_close ∷ rest) m r = sym (append-nil _)
  run_task-outbound (drop true ∷ rest) m r = sym (append-nil _)
  run_task-outbound (drop false ∷ rest) m r = sym (append-nil _)

  complete_write-outbound :
      (b : Bool) (m : Machine K) → IsRunning m → outbound (complete_write b m) ≡ outbound m
  unfolding complete_write
  complete_write-outbound false m r = refl
  complete_write-outbound true m r = write_done-outbound m r

  complete_close-outbound : (b : Bool) (m : Machine K) → outbound (complete_close b m) ≡ outbound m
  unfolding complete_close close_done perform
  complete_close-outbound false m = refl
  complete_close-outbound true m = ground arith

  connect-outbound :
      (b : Bool) (m : Machine K) → outbound (after (connect_done b m.client) m) ≡ outbound m
  unfolding connect_done perform
  connect-outbound true m = refl
  connect-outbound false m = refl

  handshake-outbound :
      (b : Bool) (m : Machine K) → outbound (after (handshake_done b m.client) m) ≡ outbound m
  unfolding handshake_done perform
  handshake-outbound true m = ground arith
  handshake-outbound false m = ground arith

  read-outbound :
      (text : String) (m : Machine K)
      → (outbound (after (read_failed m.client) m) ≡ outbound m)
        × (outbound (after (read_done text m.client) m) ≡ outbound m)
  unfolding read_failed read_done perform
  read-outbound text m = (ground arith, ground arith)

  step-outbound :
      (m : Machine K) (e : Event)
      → IsRunning m
      → outbound (step m e) ≡ outbound m ++ accepted_at m e
  unfolding step
  step-outbound m task_runs r = run_task-outbound m.tasks m r
  step-outbound m (send_called text) r = sym (append-nil _)
  step-outbound m close_called r = sym (append-nil _)
  step-outbound m (drop_called graceful) r = sym (append-nil _)
  step-outbound m write_completes r = complete_write-outbound m.writing m r ∙ sym (append-nil _)
  step-outbound m close_completes r = complete_close-outbound m.closing m ∙ sym (append-nil _)
  step-outbound m (connect_completes b) r = connect-outbound b m ∙ sym (append-nil _)
  step-outbound m (handshake_completes b) r = handshake-outbound b m ∙ sym (append-nil _)
  step-outbound m read_fails r = (read-outbound "" m).0 ∙ sym (append-nil _)
  step-outbound m (read_completes text) r = (read-outbound text m).1 ∙ sym (append-nil _)

  -- From any state that a running client can be in (`IsRunning`), whatever happens: the texts
  -- given to Boost and those that wait behind the current one are, in this order, the accepted
  -- texts in the order of their acceptance: none is lost, doubled or overtaken.
  pub run-outbound :
      (m : Machine K) (es : List Event)
      → IsRunning m
      → outbound (run m es) ≡ outbound m ++ accepted m es
  unfolding run accepted
  run-outbound m [] r = sym (append-nil _)
  run-outbound m (e ∷ es) r =
      run-outbound (step m e) es (step-IsRunning m e r)
      ∙ ap (λ t. t ++ accepted (step m e) es) (step-outbound m e r)
      ∙ append_assoc (outbound m) (accepted_at m e) (accepted (step m e) es)
