-- ===== src/Ws/Writes.antt =====
-- The outbound half of the client: what runs on its strand.
use ocppwo.Common.{
  ℕ, Bool, true, false, not, ◌&&◌, Option, none, some, List, [], ◌∷◌, ◌++◌, String, length, ltb,
  ◌==◌, if◌then◌else◌, max,
}
use ocppwo.Metrics.Ops.{
  transport_on_write_enqueued, transport_on_write_completed, transport_observe_writes_in_flight,
  transport_on_close_event,
}
use ocppwo.Ws.{WsClient, Action, write, post_close, call_closed, disconnected, inc32, dec32}

abbrev pub is_empty : List String → Bool
is_empty [] = true
is_empty (x ∷ xs) = false

-- `pop_front`, which is called only on a queue that is not empty
abbrev pub pop_front : List String → List String
pop_front [] = []
pop_front (x ∷ xs) = xs

module _ {K : Type 0} where
  -- `if( on_closed_ ) on_closed_()`
  abbrev pub notify_closed : Option K → List (Action K)
  notify_closed none = []
  notify_closed (some k) = call_closed k ∷ []

  write_front : List String → WsClient K → WsClient K × List (Action K)
  write_front [] c = (record c { write_in_progress = false }, [])
  write_front (text ∷ rest) c =
      let n = inc32 c.writes_in_flight in
      (
        record c {
          write_in_progress = true;
          writes_in_flight = n;
          metrics = transport_observe_writes_in_flight n c.metrics;
        },
        write text ∷ [],
      )

  -- WsClient::do_write, up to the async_write
  unfoldable pub do_write : WsClient K → WsClient K × List (Action K)
  unfolding write_front
  do_write c = write_front c.write_queue c

  -- The state after `push_back` in the task of `send`.
  unfoldable pub enqueue : String → WsClient K → WsClient K
  enqueue text c =
      let depth = inc32 c.current_write_queue_depth in
      record c {
        write_queue = c.write_queue ++ text ∷ [];
        current_write_queue_depth = depth;
        max_write_queue_depth = max c.max_write_queue_depth depth;
        metrics = transport_on_write_enqueued depth c.metrics;
      }

  -- The task that WsClient::send posts.
  unfoldable pub send_task : String → WsClient K → WsClient K × List (Action K)
  unfolding enqueue do_write
  send_task text c =
      if c.close_pending
      then (c, [])
      else if ltb 1000 (length c.write_queue)
      then (c, [])
      else if c.write_in_progress
      then (enqueue text c, [])
      else do_write (enqueue text c)

  -- WsClient::tentative_close
  unfoldable pub tentative_close : WsClient K → WsClient K × List (Action K)
  tentative_close c =
      if c.close_pending && not c.close_started
      then (if is_empty c.write_queue && not c.write_in_progress && not (c.writes_in_flight == 0)
          then (record c { close_started = true }, post_close ∷ [])
          else (c, []))
      else (c, [])

  -- The bookkeeping of the async_write handler.
  unfoldable pub finish_write : WsClient K → WsClient K
  finish_write c =
      let n = dec32 c.writes_in_flight in
      let depth = dec32 c.current_write_queue_depth in
      record c {
        write_queue = pop_front c.write_queue;
        writes_in_flight = n;
        current_write_queue_depth = depth;
        metrics =
            transport_observe_writes_in_flight n (transport_on_write_completed depth c.metrics);
        max_writes_in_flight = max c.max_writes_in_flight n;
      }

  -- The async_write handler of WsClient::do_write: an error is only logged.
  unfoldable pub write_done : WsClient K → WsClient K × List (Action K)
  unfolding finish_write do_write tentative_close
  write_done c =
      let c' = finish_write c in
      if not (is_empty c'.write_queue)
      then do_write c'
      else tentative_close (record c' { write_in_progress = false })

  -- The task that WsClient::close posts.
  unfoldable pub close_task : WsClient K → WsClient K × List (Action K)
  unfolding tentative_close
  close_task c = tentative_close (record c { close_pending = true })

  -- The async_close handler.
  unfoldable pub close_done : WsClient K → WsClient K × List (Action K)
  close_done c = (
    record c { state = disconnected; metrics = transport_on_close_event c.metrics },
    notify_closed c.on_closed,
  )

  unfoldable pub transport_max_writes_in_flight : WsClient K → ℕ
  transport_max_writes_in_flight c = c.max_writes_in_flight

  unfoldable pub transport_max_write_queue_depth : WsClient K → ℕ
  transport_max_write_queue_depth c = c.max_write_queue_depth

  unfoldable pub transport_current_write_queue_depth : WsClient K → ℕ
  transport_current_write_queue_depth c = c.current_write_queue_depth
