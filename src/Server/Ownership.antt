-- ===== src/Server/Ownership.antt =====
-- Who owns a session of `main`: its own message callback captures it, so that nothing frees it.
use ocppwo.Common.{
  ℕ, zero, suc, ◌≡◌, refl, ◌∙◌, Bool, true, false, Option, none, some, List, [], ◌∷◌, ◌++◌, String,
  Result, ok, throws, All, All-snoc, get_elem?, if◌then◌else◌, arith,
}
use ocppwo.Json.{JsonLib}
use ocppwo.Server.Main.{
  Hook, print_message, Connection, release, Main, new_connection, socket_accepted, update_at,
  run_send, next_send, Happening, handshake_ended, text_came, send_ran, write_completed,
  read_failed, Event, accepted, happened, take_text, reads_text, connection_step, handle_at, handle,
}
use ocppwo.Server.Order.{Line, Event as LineEvent, send_runs, write_completes, step as line_step}
use ocppwo.Server.Reads.{accept_done, set_on_message}
use ocppwo.Server.Writes.{send_task, write_done, do_write}

-- The session has the message callback that `main` gave it, and is allocated.
pub record IsLeaked (c : Connection) : Type 0 where
  pub hooked : c.line.session.on_message ≡ some print_message
  pub kept : c.freed ≡ false

line_step-on_message :
    (l : Line Hook) (e : LineEvent) → (line_step l e).session.on_message ≡ l.session.on_message
unfolding line_step send_task write_done do_write
line_step-on_message l (send_runs text) = go l.session.write_queue refl
  where
    go :
        (q : List String)
        → l.session.write_queue ≡ q
        → (line_step l (send_runs text)).session.on_message ≡ l.session.on_message
    go [] e = ground arith
    go (x ∷ q) e = ground arith
line_step-on_message l write_completes = go l.session.write_queue refl
  where
    go :
        (q : List String)
        → l.session.write_queue ≡ q
        → (line_step l write_completes).session.on_message ≡ l.session.on_message
    go [] e = ground arith
    go (x ∷ []) e = ground arith
    go (x ∷ y ∷ q) e = ground arith

-- Whatever handler returns, the callback still owns the session.
release-IsLeaked : (c : Connection) → IsLeaked c → IsLeaked (release c)
release-IsLeaked c k = record { hooked = k.hooked; kept = rw (k.hooked, k.kept) refl }

run_send-IsLeaked :
    (texts : List String) (c : Connection) → IsLeaked c → IsLeaked (run_send texts c)
unfolding run_send
run_send-IsLeaked [] c k = k
run_send-IsLeaked (text ∷ rest) c k = record {
  hooked = line_step-on_message c.line (send_runs text) ∙ k.hooked;
  kept = k.kept;
}

update_at-IsLeaked :
    (i : ℕ) (f : Connection → Connection) (cs : List Connection)
    → ((c : Connection) → IsLeaked c → IsLeaked (f c))
    → All IsLeaked cs
    → All IsLeaked (update_at i f cs)
update_at-IsLeaked i f [] h a = a
update_at-IsLeaked zero f (c ∷ cs) h a = (h c a.0, a.1)
update_at-IsLeaked (suc i) f (c ∷ cs) h a = (a.0, update_at-IsLeaked i f cs h a.1)

module _ (J : JsonLib) where
  take_text-IsLeaked :
      (res : Result (Unit {0}) × List String) (c : Connection)
      → IsLeaked c
      → IsLeaked (take_text J res c)
  take_text-IsLeaked (ok u, texts) c k =
      release-IsLeaked (record c { posted = c.posted ++ texts; reading = true })
        (record { hooked = k.hooked; kept = k.kept })
  take_text-IsLeaked (throws what, texts) c k = record { hooked = k.hooked; kept = k.kept }

  connection_step-IsLeaked :
      (h : Happening) (c : Connection) → IsLeaked c → IsLeaked (connection_step J h c)
  unfolding connection_step accept_done next_send
  connection_step-IsLeaked (handshake_ended true) c k =
      release-IsLeaked _ (record { hooked = k.hooked; kept = k.kept })
  connection_step-IsLeaked (handshake_ended false) c k =
      release-IsLeaked _ (record { hooked = k.hooked; kept = k.kept })
  connection_step-IsLeaked (text_came text) c k = take_text-IsLeaked (reads_text J text) c k
  connection_step-IsLeaked send_ran c k = release-IsLeaked _ (run_send-IsLeaked c.posted c k)
  connection_step-IsLeaked write_completed c k =
      release-IsLeaked _
        (record { hooked = line_step-on_message c.line write_completes ∙ k.hooked; kept = k.kept })
  connection_step-IsLeaked read_failed c k =
      release-IsLeaked _ (record { hooked = k.hooked; kept = k.kept })

  pub handle-IsLeaked :
      (m : Main) (e : Event) → All IsLeaked m.connections → All IsLeaked (handle J e m).connections
  unfolding handle socket_accepted handle_at new_connection set_on_message
  handle-IsLeaked m (accepted socket) a = go m.accepting socket
    where
      go :
          (b : Bool) (o : Option (Result String))
          → All IsLeaked (if b then socket_accepted o m else m).connections
      go false o = a
      go true none = a
      go true (some (throws what)) = a
      go true (some (ok peer)) =
          All-snoc m.connections IsLeaked (record { hooked = refl; kept = refl }) a
  handle-IsLeaked m (happened i h) a = go (get_elem? m.connections i)
    where
      go : (o : Option Connection) → All IsLeaked (handle_at J o i h m).connections
      go none = a
      go (some c) =
          update_at-IsLeaked i (connection_step J h) m.connections (connection_step-IsLeaked h) a
