-- ===== src/Tcp/Lines.antt =====
-- The session's methods and completion handlers.
use Prim.Native.String.{◌++◌}
use ocppwo.Common.{List, [], ◌∷◌, String, Result, ok, ◌>>=◌}
use ocppwo.Json.{JsonLib}
use ocppwo.Ocpp.{OcppFrame, call, call_result, call_error}
use ocppwo.Ocpp.Frames.{parse_frame, to_json_frame}
use ocppwo.Ocpp.Payloads.{from_json_boot, from_json_authorize}
use ocppwo.Ocpp.Handlers.{boot_handler, authorize_handler}
use ocppwo.Router.{Router}
use ocppwo.Router.Dispatch.{add_handler, route}
use ocppwo.Tcp.{Action, read_line, write}

-- ServerSession::do_read, up to the read
unfoldable pub do_read : List Action
do_read = read_line ∷ []

-- ServerSession::start
unfoldable pub start : List Action
unfolding do_read
start = do_read

-- ServerSession::do_write, up to the write
unfoldable pub do_write : String → List Action
do_write msg = write msg ∷ []

-- The handler of async_write, which only logs an error.
unfoldable pub write_done : List Action
unfolding do_read
write_done = do_read

-- The handler of async_read_until on an error.
unfoldable pub read_failed : List Action
read_failed = []

module _ (J : JsonLib) (S : Type 0) where
  open J use {Json, parse, dump}

  -- What the constructor does to the router, which it shares with the other sessions.
  unfoldable pub with_handlers : Router J S → Router J S
  unfolding add_handler
  with_handlers r =
      add_handler J S "Authorize" (from_json_authorize J) (authorize_handler J)
        (add_handler J S "BootNotification" (from_json_boot J) (boot_handler J) r)

  -- The branches on the frame: a reply is written for a Call, and the session stops at any other.
  unfoldable pub answer : Router J S → OcppFrame Json → Result (List Action)
  unfolding do_write
  answer r (call c) = do
    reply ← route J S r c
    out ← dump (to_json_frame J reply)
    ok (do_write (out ++ "\n"))
  answer r (call_result c) = ok []
  answer r (call_error c) = ok []

  -- The handler of async_read_until on a line.
  unfoldable pub read_done : Router J S → String → Result (List Action)
  unfolding answer
  read_done r line = do frame ← (parse line >>= parse_frame J); answer r frame
