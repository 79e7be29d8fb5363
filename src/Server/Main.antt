-- ===== src/Server/Main.antt =====
-- json_wo/tcp_server.cpp: `main`, with what it prints left out. Boost runs one handler at a time. A
-- session is owned by the handlers of its operations under way, by the sends that it has posted, and
-- by each of its own callbacks that captures it; it is freed when none of these is left.
use ocppwo.Common.{
  ℕ, zero, suc, Bool, true, false, Option, none, some, List, [], ◌∷◌, ◌++◌, String, Result, ok,
  throws, get_elem?, if◌then◌else◌, ◌||◌, not,
}
use ocppwo.Json.{JsonLib}
use ocppwo.Router.Route.{server_router}
use ocppwo.Server.{new_server_session}
use ocppwo.Server.Order.{Line, is_idle, send_runs, write_completes, step as line_step}
use ocppwo.Server.Reads.{set_on_message, accept_done, read_text, route_call}

-- The message callback of `main`, which prints the text.
pub data Hook : Type 0 where
  print_message : Hook

-- Whether a callback captures the shared pointer of its session: that of `main` does, by `[ss, …]`.
abbrev pub captures_session : Hook → Bool
captures_session print_message = true

-- A session with the texts whose write was started, and the sends that were posted and did not run.
pub record Connection : Type 0 where
  pub line : Line Hook
  pub posted : List String
  -- whether an async_accept of the WebSocket or an async_read is under way
  pub reading : Bool
  pub freed : Bool

abbrev pub held_by : Option Hook → Bool
held_by none = false
held_by (some k) = captures_session k

-- Whether a shared pointer to the session is left.
abbrev pub is_owned : Connection → Bool
is_owned c =
    held_by c.line.session.on_message
    || c.reading
    || c.line.session.write_in_progress
    || not (is_idle c.posted)

-- A handler has returned and is destroyed, with the shared pointer that it held.
abbrev pub release : Connection → Connection
release c = record c { freed = c.freed || not (is_owned c) }

pub record Main : Type 0 where
  -- the sessions of all clients so far
  pub connections : List Connection
  -- whether an async_accept is under way
  pub accepting : Bool
  -- the exception that left io_context::run
  pub ended : Option String

abbrev pub new_main : Main
new_main = record { connections = []; accepting = true; ended = none }

unfoldable pub new_connection : Connection
unfolding set_on_message
new_connection = record {
  line = record { session = set_on_message print_message new_server_session; started = [] };
  posted = [];
  reading = true;
  freed = false;
}

-- The completion of async_accept: an error, or a socket, whose remote_endpoint may throw.
unfoldable pub socket_accepted : Option (Result String) → Main → Main
unfolding new_connection
socket_accepted none m = record m { accepting = true }
socket_accepted (some (ok peer)) m = record m {
  connections = m.connections ++ new_connection ∷ [];
  accepting = true;
}
socket_accepted (some (throws what)) m = record m { accepting = false; ended = some what }

abbrev pub update_at : ℕ → (Connection → Connection) → List Connection → List Connection
update_at i f [] = []
update_at zero f (c ∷ cs) = f c ∷ cs
update_at (suc i) f (c ∷ cs) = c ∷ update_at i f cs

unfoldable pub run_send : List String → Connection → Connection
unfolding line_step
run_send [] c = c
run_send (text ∷ rest) c = record c { line = line_step c.line (send_runs text); posted = rest }

-- The next posted send of the connection runs.
unfoldable pub next_send : Connection → Connection
unfolding run_send
next_send c = run_send c.posted c

-- What happens to one connection: the WebSocket handshake ended, with whether it failed; a text
-- came; the next posted send runs; the write that is under way completed; the read failed.
pub data Happening : Type 0 where
  handshake_ended : Bool → Happening
  text_came : String → Happening
  send_ran write_completed read_failed : Happening

pub data Event : Type 0 where
  accepted : Option (Result String) → Event
  happened : ℕ → Happening → Event

module _ (J : JsonLib) where
  -- What the read handler of a session posts for a text, and how it ends.
  abbrev pub reads_text : String → Result (Unit {0}) × List String
  reads_text text = read_text J (some (route_call J (server_router J (List String)))) text []

  -- The read handler posts what it sends and reads on. After an exception nothing else runs, and
  -- the session is left as it is.
  abbrev pub take_text : Result (Unit {0}) × List String → Connection → Connection
  take_text (ok u, texts) c = release (record c { posted = c.posted ++ texts; reading = true })
  take_text (throws what, texts) c = record c { posted = c.posted ++ texts }

  -- A failed handshake or read starts no other operation.
  unfoldable pub connection_step : Happening → Connection → Connection
  unfolding accept_done next_send line_step read_text
  connection_step (handshake_ended failed) c = release (record c {
    line = record c.line { session = (accept_done failed c.line.session).0 };
    reading = not failed;
  })
  connection_step (text_came text) c = take_text (reads_text text) c
  connection_step send_ran c = release (next_send c)
  connection_step write_completed c = release (record c { line = line_step c.line write_completes })
  connection_step read_failed c = release (record c { reading = false })

  -- The exception that a handler lets out.
  abbrev pub thrown_by : Happening → Option String
  thrown_by (text_came text) = elim (reads_text text).0 [ ok u ↦ none | throws what ↦ some what ]
  thrown_by _ = none

  -- A handler of the connection of this number runs, if there is one.
  unfoldable pub handle_at : Option Connection → ℕ → Happening → Main → Main
  unfolding connection_step
  handle_at none i h m = m
  handle_at (some c) i h m = record m {
    connections = update_at i (connection_step h) m.connections;
    ended = thrown_by h;
  }

  unfoldable pub handle : Event → Main → Main
  unfolding handle_at socket_accepted
  handle (accepted socket) m = if m.accepting then socket_accepted socket m else m
  handle (happened i h) m = handle_at (get_elem? m.connections i) i h m

  -- Nothing runs once an exception has left io_context::run.
  unfoldable pub step_after : Option String → Main → Event → Main
  unfolding handle
  step_after none m e = handle e m
  step_after (some what) m e = m

  unfoldable pub step : Main → Event → Main
  unfolding step_after
  step m e = step_after m.ended m e

  unfoldable pub run : Main → List Event → Main
  run m [] = m
  run m (e ∷ es) = run (step m e) es
