-- ===== src/Ws/Lifecycle.antt =====
-- Callbacks, the connection chain of `start`, and the read loop.
use ocppwo.Common.{
  Bool, true, false, not, Option, none, some, List, [], ◌∷◌, ◌++◌, String, if◌then◌else◌,
}
use ocppwo.Metrics.Ops.{transport_on_close_event}
use ocppwo.Ws.{
  WsClient, WsClientState, disconnected, connected, connecting, Action, resolve, connect, handshake,
  read, pong, call_message, call_connected, call_closed, call_ping, call_none, quiet_close,
  cancel_socket, shutdown_socket, close_socket,
}
use ocppwo.Ws.Writes.{notify_closed}

abbrev is_disconnected : WsClientState → Bool
is_disconnected disconnected = true
is_disconnected _ = false

module _ {K : Type 0} where
  unfoldable pub set_on_message : K → WsClient K → WsClient K
  set_on_message cb c = record c { on_message = some cb }

  unfoldable pub set_on_connected : K → WsClient K → WsClient K
  set_on_connected cb c = record c { on_connected = some cb }

  unfoldable pub set_on_close : K → WsClient K → WsClient K
  set_on_close cb c = record c { on_closed = some cb }

  unfoldable pub set_on_ping : K → WsClient K → WsClient K
  set_on_ping cb c = record c { on_ping = some cb }

  -- WsClient::start
  unfoldable pub start : WsClient K → WsClient K × List (Action K)
  start c = (c, resolve ∷ [])

  -- The async_resolve handler, with whether it failed.
  unfoldable pub resolve_done : Bool → WsClient K → WsClient K × List (Action K)
  resolve_done true c = (c, [])
  resolve_done false c = (c, connect ∷ [])

  -- The async_connect handler.
  unfoldable pub connect_done : Bool → WsClient K → WsClient K × List (Action K)
  connect_done true c = (c, [])
  connect_done false c = (record c { state = connecting }, handshake ∷ [])

  abbrev pub notify_connected : Option K → List (Action K)
  notify_connected none = []
  notify_connected (some k) = call_connected k ∷ []

  -- `on_closed_()` without a test
  abbrev call_on_closed : Option K → List (Action K)
  call_on_closed none = call_none ∷ []
  call_on_closed (some k) = call_closed k ∷ []

  -- The async_handshake handler.
  unfoldable pub handshake_done : Bool → WsClient K → WsClient K × List (Action K)
  handshake_done true c =
      (record c { metrics = transport_on_close_event c.metrics }, call_on_closed c.on_closed)
  handshake_done false c =
      (record c { state = connected }, notify_connected c.on_connected ++ read ∷ [])

  abbrev notify_ping : Option K → String → List (Action K)
  notify_ping none payload = []
  notify_ping (some k) payload = call_ping k payload ∷ []

  -- The control callback, on a ping frame: the pong is posted on the strand.
  unfoldable pub ping_received : String → WsClient K → WsClient K × List (Action K)
  ping_received payload c = (c, notify_ping c.on_ping payload ++ pong payload ∷ [])

  -- The error branch of the async_read handler.
  unfoldable pub read_failed : WsClient K → WsClient K × List (Action K)
  read_failed c = (
    record c { metrics = transport_on_close_event c.metrics },
    if not (is_disconnected c.state) then notify_closed c.on_closed else [],
  )

  abbrev notify_message : Option K → String → List (Action K)
  notify_message none text = []
  notify_message (some k) text = call_message k text ∷ []

  -- Its other branch, with the text that was read.
  unfoldable pub read_done : String → WsClient K → WsClient K × List (Action K)
  read_done text c = (c, notify_message c.on_message text ++ read ∷ [])

  -- The task that WsClient::force_drop posts on the strand; the socket's errors are ignored.
  unfoldable pub force_drop_task : Bool → WsClient K → WsClient K × List (Action K)
  force_drop_task true c = (c, quiet_close ∷ [])
  force_drop_task false c = (c, cancel_socket ∷ shutdown_socket ∷ close_socket ∷ [])
