-- ===== src/Tcp/Machine.antt =====
-- The session with the operations that Boost has under way.
use ocppwo.Common.{Option, none, some, List, [], ◌∷◌, ◌++◌, String, Result, ok, throws}
use ocppwo.Json.{JsonLib}
use ocppwo.Router.{Router}
use ocppwo.Tcp.{Action, read_line, write}
use ocppwo.Tcp.Lines.{start, write_done, read_failed, read_done}

pub record Machine : Type 0 where
  -- reads and writes that have not completed, oldest first
  pub under_way : List Action
  -- the texts that async_write was asked to write, oldest first. The buffer that it gets is on the
  -- parameter of do_write, which is destroyed when do_write returns: which bytes go out is not
  -- said here.
  pub asked : List String
  -- the exception that ended io_context::run
  pub thrown : Option String

pub data Event : Type 0 where
  line_arrives : String → Event
  read_fails : Event
  -- whether it failed or not
  write_completes : Event

unfoldable pub perform : List Action → Machine → Machine
perform [] m = m
perform (read_line ∷ rest) m = perform rest (record m { under_way = m.under_way ++ read_line ∷ [] })
perform (write text ∷ rest) m =
    perform rest
      (record m { under_way = m.under_way ++ write text ∷ []; asked = m.asked ++ text ∷ [] })

-- After `start`.
unfoldable pub started : Machine
unfolding perform start
started = perform start (record { under_way = []; asked = []; thrown = none })

module _ (J : JsonLib) (S : Type 0) (r : Router J S) where
  unfoldable pub take_up : Result (List Action) → Machine → Machine
  unfolding perform
  take_up (throws what) m = record m { thrown = some what }
  take_up (ok actions) m = perform actions m

  -- The oldest operation completes by an event of its kind.
  unfoldable pub complete : List Action → Event → Machine → Machine
  unfolding take_up perform
  complete (read_line ∷ rest) (line_arrives line) m =
      take_up (read_done J S r line) (record m { under_way = rest })
  complete (read_line ∷ rest) read_fails m = perform read_failed (record m { under_way = rest })
  complete (write text ∷ rest) write_completes m =
      perform write_done (record m { under_way = rest })
  complete _ e m = m

  -- Nothing happens after an exception.
  unfoldable pub step : Machine → Event → Machine
  unfolding complete
  step m e = elim m.thrown [ none ↦ complete m.under_way e m | some what ↦ m ]

  unfoldable pub run : Machine → List Event → Machine
  run m [] = m
  run m (e ∷ es) = run (step m e) es
