-- ===== src/Server/Writes.antt =====
-- The write queue. The executor runs the posted tasks one at a time.
use ocppwo.Common.{true, false, List, [], ◌∷◌, ◌++◌, String, ltb, length, if◌then◌else◌}
use ocppwo.Server.{WsServerSession, Action, write}

abbrev pub pop_front : List String → List String
pop_front [] = []
pop_front (text ∷ rest) = rest

module _ {K : Type 0} where
  write_front : List String → WsServerSession K → WsServerSession K × List (Action K)
  write_front [] s = (record s { write_in_progress = false }, [])
  write_front (text ∷ rest) s = (record s { write_in_progress = true }, write text ∷ [])

  -- WsServerSession::do_write, up to the async_write
  unfoldable pub do_write : WsServerSession K → WsServerSession K × List (Action K)
  unfolding write_front
  do_write s = write_front s.write_queue s

  -- The task that WsServerSession::send posts.
  unfoldable pub send_task : String → WsServerSession K → WsServerSession K × List (Action K)
  unfolding do_write
  send_task text s =
      let pushed = record s { write_queue = s.write_queue ++ text ∷ [] } in
      if ltb 1000 (length s.write_queue)
      then (s, [])
      else if s.write_in_progress
      then (pushed, [])
      else do_write pushed

  after_pop : List String → WsServerSession K → WsServerSession K × List (Action K)
  unfolding do_write
  after_pop [] s = (record s { write_in_progress = false }, [])
  after_pop (text ∷ rest) s = do_write s

  -- The handler of async_write, which only logs an error.
  unfoldable pub write_done : WsServerSession K → WsServerSession K × List (Action K)
  unfolding after_pop
  write_done s =
      after_pop (pop_front s.write_queue) (record s { write_queue = pop_front s.write_queue })
