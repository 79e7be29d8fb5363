-- ===== src/TestServer/Telemetry.antt =====
-- What the telemetry of the server says.
use mathlib.Core.List.{append-nil, append_assoc}
use ocppwo.Common.{
  ◌≡◌, refl, sym, ◌⊎◌, inl, inr, true, List, [], ◌∷◌, ◌++◌, String, str_eq, if◌then◌else◌, Result,
  ok, throws, ◌>>=◌, ℕ, arith,
}
use ocppwo.Json.{JsonLib}
use ocppwo.Metrics.Ops.{server_calls_received_total_increment}
use ocppwo.Ocpp.{Call, OcppFrame, call, call_result, call_error}
use ocppwo.Ocpp.Frames.{parse_frame}
use ocppwo.TestServer.{
  Frame, Event, EventType, connect, reconnect, boot_accepted, first_heart_beat, disconnect,
  TestServer,
}
use ocppwo.TestServer.Ops.{record_event}
use ocppwo.TestServer.Messages.{note_call, note_heartbeat, note_boot, note, process}
use ocppwo.TestServer.Outline.{outline, SameOutline, to_router-SameOutline}

-- The events that the accept handler records.
abbrev pub accept_type : EventType → List EventType
accept_type connect = connect ∷ []
accept_type reconnect = reconnect ∷ []
accept_type boot_accepted = []
accept_type first_heart_beat = []
accept_type disconnect = []

abbrev pub accept_types : List Event → List EventType
accept_types [] = []
accept_types (e ∷ es) = accept_type e.type ++ accept_types es

pub accept_types-snoc :
    (es : List Event) (e : Event)
    → accept_types (es ++ e ∷ []) ≡ accept_types es ++ accept_type e.type
accept_types-snoc [] e = append-nil (accept_type e.type)
accept_types-snoc (d ∷ es) e =
    rw (accept_types-snoc es e)
      (sym (append_assoc (accept_type d.type) (accept_types es) (accept_type e.type)))

-- The tracked parts of the state stay, but for heartbeats that are added.
pub record Adds (fs : List Frame) (s t : TestServer) : Type 0 where
  pub unseen_still : t.first_message_seen ≡ s.first_message_seen
  pub same_count : t.connect_count ≡ s.connect_count
  pub same_received : t.received ≡ s.received
  pub same_accepts : accept_types t.events ≡ accept_types s.events
  pub beats : t.heartbeats ≡ s.heartbeats ++ fs

record_event-Adds :
    (type : EventType) (now : ℕ) (s : TestServer)
    → accept_type type ≡ []
    → Adds [] s (record_event type now s)
unfolding record_event
record_event-Adds type now s e = ground (
  arith,
  accept_types-snoc s.events (record { type = type; ts = now }),
  append-nil s.heartbeats,
  append-nil (accept_types s.events),
)

module _ (J : JsonLib) where
  open J use {Json, parse}

  -- A message changes the outline of the state as its recording does, if at all.
  abbrev pub Records : String → ℕ → TestServer → TestServer → Type 0
  Records text now s t =
      SameOutline s t
      ⊎ ((c : Call Json) × ((parse text >>= parse_frame J) ≡ ok (call c))
          × (outline t ≡ outline (note_call J c text now s).1))

  pub process-Records :
      (text : String) (now : ℕ) (s : TestServer) → Records text now s (process J text now s).1
  unfolding process note
  process-Records text now s = go (parse text >>= parse_frame J) refl
    where
      go :
          (r : Result (OcppFrame Json))
          → (parse text >>= parse_frame J) ≡ r
          → Records text now s (process J text now s).1
      go (throws what) e = rw e (inl refl)
      go (ok (call c)) e = inr (c, e, rw e (to_router-SameOutline J _ text _))
      go (ok (call_result c)) e = inl (rw e (to_router-SameOutline J true text s))
      go (ok (call_error c)) e = inl (rw e (to_router-SameOutline J true text s))

  note_heartbeat-Adds :
      (text : String) (now : ℕ) (s : TestServer)
      → Adds (record { text = text; t = now } ∷ []) s (note_heartbeat J text now s)
  unfolding note_heartbeat
  note_heartbeat-Adds text now s = ground (
    arith,
    record_event-Adds first_heart_beat now
        (record s { heartbeats = s.heartbeats ++ record { text = text; t = now } ∷ [] }) refl,
    append-nil (s.heartbeats ++ record { text = text; t = now } ∷ []),
  )

  -- The heartbeats that the recording of a call adds.
  abbrev pub beats_of : Call Json → String → ℕ → List Frame
  beats_of c text now =
      if str_eq c.action "HeartBeat" then record { text = text; t = now } ∷ [] else []

  pub note_call-Adds :
      (c : Call Json) (text : String) (now : ℕ) (s : TestServer)
      → Adds (beats_of c text now) s (note_call J c text now s).1
  unfolding note_call note_boot
  note_call-Adds c text now s = ground (
    arith,
    note_heartbeat-Adds text now
        (record s { metrics = server_calls_received_total_increment s.metrics }),
    record_event-Adds boot_accepted now
        (record s {
          metrics = server_calls_received_total_increment s.metrics;
          last_boot_msg_id = c.message_id;
        })
        refl,
    append-nil s.heartbeats,
  )
