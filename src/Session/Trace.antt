-- ===== src/Session/Trace.antt =====
-- What is seen of one call during a run: the calls sent under its id, and its callback.
use ocppwo.Common.{
  Option, some, List, [], ◌∷◌, ◌++◌, String, str_eq, if◌then◌else◌, Result, ok, throws,
}
use ocppwo.Json.{JsonLib}
use ocppwo.Ocpp.{OcppPayload, heartbeat, heart_beat}
use ocppwo.Ocpp.Frames.{to_json_call}
use ocppwo.Ocpp.Calls.{create_call}
use ocppwo.Session.{Session, Callback, boot_reply, heartbeat_reply, Pending}
use ocppwo.Session.Calls.{is_ready, request_of}
use ocppwo.Session.Events.{Event, call_sent, transport_connected, heartbeat_expired, step}
use ocppwo.Session.Life.{deliveries, Mark, marks}
use ocppwo.Session.Once.{boot}

-- A call that is printed is sent.
abbrev pub if_printed : Result String → Pending → List Pending
if_printed (ok line) p = p ∷ []
if_printed (throws what) p = []

module _ (J : JsonLib) where
  open J use {Json, dump}

  -- The call, if it goes out under the id: with this callback, and the request of this payload.
  abbrev pub sent_as : String → String → OcppPayload → Option Callback → List Pending
  sent_as id k p cb =
      if str_eq k id
      then if_printed (dump (to_json_call J (create_call J k p)))
          (record { resolve = cb; request = request_of p })
      else []

  -- The calls that an event sends under this id: the caller's, the boot, and, in the ready state,
  -- the heartbeat.
  abbrev pub sent_at : String → Session → Event → List Pending
  sent_at id s (call_sent k p cb timeout) = sent_as id k p cb
  sent_at id s (transport_connected k) = sent_as id k boot (some boot_reply)
  sent_at id s (heartbeat_expired k i) =
      if is_ready s.state then sent_as id k (heartbeat heart_beat) (some heartbeat_reply) else []
  sent_at id s _ = []

  abbrev pub trace : String → Session → List Event → List (Mark Json)
  trace id s [] = []
  trace id s (e ∷ es) =
      let o = step J s e in
      marks (sent_at id s e) (deliveries id o.effects) ++ trace id o.session es
