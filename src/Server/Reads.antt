-- ===== src/Server/Reads.antt =====
-- Accepting, reading and closing.
use ocppwo.Common.{
  Bool, true, false, Option, none, some, List, [], ◌∷◌, ◌++◌, String, Result, ok, not,
  if◌then◌else◌,
}
use ocppwo.Common.{◌>>=◌ as bind}
use ocppwo.Json.{JsonLib}
use ocppwo.Ocpp.{Call, OcppFrame, call, call_result, call_error}
use ocppwo.Ocpp.Frames.{parse_frame, to_json_frame}
use ocppwo.Router.{Router}
use ocppwo.Router.Dispatch.{route}
use ocppwo.Router.Effects.{Eff, lift, ◌>>=◌}
use ocppwo.Router.Sends.{record_send}
use ocppwo.Server.{
  WsServerSession, WsServerSessionState, disconnected, connected, Action, read, call_message,
  call_open, call_closed,
}

abbrev is_disconnected : WsServerSessionState → Bool
is_disconnected disconnected = true
is_disconnected connected = false

module _ {K : Type 0} where
  unfoldable pub set_on_message : K → WsServerSession K → WsServerSession K
  set_on_message k s = record s { on_message = some k }

  unfoldable pub set_on_open : K → WsServerSession K → WsServerSession K
  set_on_open k s = record s { on_open = some k }

  unfoldable pub set_on_close : K → WsServerSession K → WsServerSession K
  set_on_close k s = record s { on_closed = some k }

  abbrev notify_open : Option K → List (Action K)
  notify_open none = []
  notify_open (some k) = call_open k ∷ []

  abbrev notify_closed : Option K → List (Action K)
  notify_closed none = []
  notify_closed (some k) = call_closed k ∷ []

  abbrev notify_message : Option K → String → List (Action K)
  notify_message none text = []
  notify_message (some k) text = call_message k text ∷ []

  -- The handler of async_accept; `true` is an error.
  unfoldable pub accept_done : Bool → WsServerSession K → WsServerSession K × List (Action K)
  accept_done true s = (s, [])
  accept_done false s = (record s { state = connected }, notify_open s.on_open ++ read ∷ [])

  -- The handler of async_read on an error.
  unfoldable pub read_failed : WsServerSession K → WsServerSession K × List (Action K)
  read_failed s = (s, if not (is_disconnected s.state) then notify_closed s.on_closed else [])

  -- The handler of async_close.
  unfoldable pub close_done : WsServerSession K → WsServerSession K × List (Action K)
  close_done s = (record s { state = disconnected }, notify_closed s.on_closed)

module _ (J : JsonLib) where
  open J use {Json, parse, dump}

  -- What on_call takes: the call and the function that replies.
  abbrev pub CallHandler : Type 0
  CallHandler =
      Call Json → (OcppFrame Json → Eff (List String) (Unit {0})) → Eff (List String) (Unit {0})

  -- The lambda `cb` of do_read, whose `send` posts the text.
  unfoldable pub reply : OcppFrame Json → Eff (List String) (Unit {0})
  unfolding record_send
  reply f = do text ← lift (dump (to_json_frame J f)); record_send text

  unfoldable pub call_handler : Option CallHandler → OcppFrame Json → Eff (List String) (Unit {0})
  unfolding reply
  call_handler none f = lift (ok tt)
  call_handler (some h) (call c) = h c reply
  call_handler (some h) (call_result r) = lift (ok tt)
  call_handler (some h) (call_error e) = lift (ok tt)

  -- What do_read does with a text, between on_message and the next do_read.
  unfoldable pub read_text : Option CallHandler → String → Eff (List String) (Unit {0})
  unfolding call_handler
  read_text on_call text = do f ← lift (bind (parse text) (parse_frame J)); call_handler on_call f

  next_read :
      {K : Type 0} → Result (Unit {0}) × List String → Result (List (Action K)) × List String
  next_read (r, posted) = (bind r (λ u. ok (read ∷ [])), posted)

  -- The handler of async_read on a text, with the actions before what it posts.
  unfoldable pub read_done :
      {K : Type 0}
      → Option CallHandler
      → String
      → WsServerSession K
      → List (Action K) × (List String → Result (List (Action K)) × List String)
  unfolding read_text next_read
  read_done on_call text s =
      (notify_message s.on_message text, λ posted. next_read (read_text on_call text posted))

  -- tcp_server.cpp: the handler that `main` gives to on_call.
  unfoldable pub route_call : Router J (List String) → CallHandler
  route_call r c cb = do f ← lift (route J (List String) r c); cb f
