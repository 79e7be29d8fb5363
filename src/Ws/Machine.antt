-- ===== src/Ws/Machine.antt =====
-- The client with what it has posted on its strand and asked of Boost. The strand runs its tasks
-- one at a time, in the order of posting; an event is the next thing that happens.
use ocppwo.Common.{Bool, true, false, List, [], ◌∷◌, ◌++◌, String}
use ocppwo.Ws.{WsClient, Action, write, post_close, quiet_close}
use ocppwo.Ws.Writes.{send_task, close_task, write_done, close_done}
use ocppwo.Ws.Lifecycle.{handshake_done, connect_done, read_failed, read_done, force_drop_task}

pub data Task : Type 0 where
  send : String → Task
  close : Task
  async_close : Task
  -- that of `force_drop`, with whether the drop is graceful
  drop : Bool → Task

pub record Machine (K : Type 0) : Type 0 where
  pub client : WsClient K
  -- posted on the strand, oldest first
  pub tasks : List Task
  -- async operations that have not completed
  pub writing : Bool
  pub closing : Bool
  -- whether `force_drop` has called async_close, whose handler does nothing
  pub quiet_closing : Bool
  -- the texts whose async_write was started, oldest first
  pub started : List String

pub data Event : Type 0 where
  -- calls of WsClient::send, WsClient::close and WsClient::force_drop
  send_called : String → Event
  close_called : Event
  drop_called : Bool → Event
  -- the strand runs its oldest task
  task_runs : Event
  -- completion handlers; `true` is an error
  write_completes : Event
  close_completes : Event
  connect_completes : Bool → Event
  handshake_completes : Bool → Event
  read_fails : Event
  read_completes : String → Event

module _ {K : Type 0} where
  -- Boost and the strand take up what a handler asks for.
  unfoldable pub perform : List (Action K) → Machine K → Machine K
  perform [] m = m
  perform (write text ∷ rest) m =
      perform rest (record m { writing = true; started = m.started ++ text ∷ [] })
  perform (post_close ∷ rest) m = perform rest (record m { tasks = m.tasks ++ async_close ∷ [] })
  perform (quiet_close ∷ rest) m = perform rest (record m { quiet_closing = true })
  perform (other ∷ rest) m = perform rest m

  abbrev pub after : WsClient K × List (Action K) → Machine K → Machine K
  after (c, actions) m = perform actions (record m { client = c })

  unfoldable pub run_task : List Task → Machine K → Machine K
  unfolding perform force_drop_task
  run_task [] m = m
  run_task (send text ∷ rest) m = after (send_task text m.client) (record m { tasks = rest })
  run_task (close ∷ rest) m = after (close_task m.client) (record m { tasks = rest })
  run_task (async_close ∷ rest) m = record m { tasks = rest; closing = true }
  run_task (drop graceful ∷ rest) m =
      after (force_drop_task graceful m.client) (record m { tasks = rest })

  -- A completion handler runs only for an operation that is outstanding.
  unfoldable pub complete_write : Bool → Machine K → Machine K
  unfolding perform
  complete_write false m = m
  complete_write true m = after (write_done m.client) (record m { writing = false })

  unfoldable pub complete_close : Bool → Machine K → Machine K
  unfolding perform
  complete_close false m = m
  complete_close true m = after (close_done m.client) (record m { closing = false })

  unfoldable pub step : Machine K → Event → Machine K
  unfolding run_task complete_write complete_close perform
  step m (send_called text) = record m { tasks = m.tasks ++ send text ∷ [] }
  step m close_called = record m { tasks = m.tasks ++ close ∷ [] }
  step m (drop_called graceful) = record m { tasks = m.tasks ++ drop graceful ∷ [] }
  step m task_runs = run_task m.tasks m
  step m write_completes = complete_write m.writing m
  step m close_completes = complete_close m.closing m
  step m (connect_completes failed) = after (connect_done failed m.client) m
  step m (handshake_completes failed) = after (handshake_done failed m.client) m
  step m read_fails = after (read_failed m.client) m
  step m (read_completes text) = after (read_done text m.client) m

  unfoldable pub run : Machine K → List Event → Machine K
  run m [] = m
  run m (e ∷ es) = run (step m e) es

  -- A client before anything has happened.
  abbrev pub idle : WsClient K → Machine K
  idle c = record {
    client = c;
    tasks = [];
    writing = false;
    closing = false;
    quiet_closing = false;
    started = [];
  }
