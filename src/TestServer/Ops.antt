-- ===== src/TestServer/Ops.antt =====
-- Accepting, closing, events and configuration.
use ocppwo.Common.{
  ℕ, ◌+◌, ◌%◌, ◌^◌, Bool, true, false, Option, none, some, List, [], ◌∷◌, ◌++◌, String, ◌==◌,
  str_eq, if◌then◌else◌, ℤ, pos, negsuc,
}
use ocppwo.Metrics.Ops.{server_replies_sent_total_increment}
use ocppwo.TestServer.{
  ClosePolicy, EventType, connect, reconnect, disconnect, Event, StoredReply, start_session,
  close_session, send, arm_timer, cancel_timer, observe, TestServer, ask,
}

-- record_event_
unfoldable pub record_event : EventType → ℕ → TestServer → TestServer
record_event t now s =
    let e : Event = record { type = t; ts = now } in
    let s' : TestServer = record s { events = s.events ++ e ∷ [] } in
    if s.observed then ask (observe e) s' else s'

abbrev is_negative : ℤ → Bool
is_negative (pos n) = false
is_negative (negsuc n) = true

-- arm_close_timer_
unfoldable pub arm_close_timer : TestServer → TestServer
arm_close_timer s = if is_negative s.close_policy.close_after_ms then s else elim s.session [
  | none ↦ s
  | some n ↦ ask (arm_timer n s.close_policy.close_after_ms) (record s { close_timer = some n })
]

-- The state that a new client finds.
unfoldable pub clear_connection : TestServer → TestServer
clear_connection s = record s {
  received = [];
  heartbeats = [];
  first_message_seen = false;
  close_timer = none;
}

-- `connect_count_++ == 1 ? Connect : Reconnect`
unfoldable pub count_connect : ℕ → TestServer → TestServer
unfolding record_event
count_connect now s =
    record_event (if s.connect_count == 1 then connect else reconnect) now
      (record s { connect_count = (s.connect_count + 1) % 2 ^ 32 })

unfoldable pub make_session : TestServer → TestServer
make_session s =
    ask (start_session s.sessions)
      (record s { session = some s.sessions; sessions = s.sessions + 1 })

-- The handler of async_accept; `true` is an error. It accepts again in either case.
unfoldable pub accept_done : Bool → ℕ → TestServer → TestServer
unfolding count_connect clear_connection make_session arm_close_timer
accept_done true now s = s
accept_done false now s = arm_close_timer (make_session (clear_connection (count_connect now s)))

-- The callback of `on_open` of the session `n`.
unfoldable pub session_opened : ℕ → TestServer → TestServer
session_opened n s = if s.close_policy.close_after_handshake then ask (close_session n) s else s

-- The callback of `on_close`.
unfoldable pub session_closed : ℕ → TestServer → TestServer
unfolding record_event
session_closed now s =
    record_event disconnect now (record s { client_disconnected = true; last_boot_msg_id = "" })

-- The handler of the close timer, when it was not cancelled and its session is still there.
unfoldable pub timer_fires : ℕ → TestServer → TestServer
timer_fires n s = ask (close_session n) s

abbrev cancel_armed : Option ℕ → TestServer → TestServer
cancel_armed none s = s
cancel_armed (some n) s = ask cancel_timer s

-- stop(); without a session it reads a null pointer, which is `none`.
unfoldable pub stop : TestServer → Option TestServer
stop s = elim s.session [
  | none ↦ none
  | some n ↦ some (ask (close_session n) (cancel_armed s.close_timer s))
]

unfoldable pub set_boot_conf : String → ℤ → TestServer → TestServer
set_boot_conf msg_id interval s = record s { heartbeat_interval = interval }

unfoldable pub set_close_policy : ClosePolicy → TestServer → TestServer
set_close_policy p s = record s { close_policy = p }

unfoldable pub on_event : TestServer → TestServer
on_event s = record s { observed = true }

unfoldable pub enable_manual_replies : Bool → TestServer → TestServer
enable_manual_replies enable s = record s {
  manual_replies = enable;
  received_call_ids = [];
  stored_replies = [];
}

-- `find_if` on the message id, and `erase` of what it finds.
unfoldable pub take_stored : String → List StoredReply → Option (StoredReply × List StoredReply)
take_stored id [] = none
take_stored id (r ∷ rs) =
    if str_eq r.message_id id
    then some (r, rs)
    else elim (take_stored id rs) [ none ↦ none | some (found, rest) ↦ some (found, r ∷ rest) ]

abbrev pub reply_stored :
    ℕ → Option (StoredReply × List StoredReply) → TestServer → Bool × TestServer
reply_stored n none s = (false, s)
reply_stored n (some (r, rest)) s =
    let s' = ask (send n r.reply_text) (record s { stored_replies = rest }) in
    (true, record s' { metrics = server_replies_sent_total_increment s'.metrics })

-- send_stored_reply_for
unfoldable pub send_stored_reply_for : String → TestServer → Bool × TestServer
unfolding take_stored
send_stored_reply_for id s = elim s.session [
  | none ↦ (false, s)
  | some n ↦ reply_stored n (take_stored id s.stored_replies) s
]
