-- ===== src/Session/Boot.antt =====
-- The boot state, and which call a reply completes.
use ocppwo.Common.{
  ℕ, ℤ, ◌≡◌, refl, sym, ap, ◌∙◌, Bool-cases, Option, none, some, List, [], ◌∷◌, String, str_eq,
  eq_iff, ◌⊎◌, inl, inr, Result, ok, throws, arith, Any, Any-append_left, Any-append_right, lookup,
  ◌>>=◌,
}
use ocppwo.Json.{JsonLib}
use ocppwo.Ocpp.{
  BootNotificationResponse, OcppFrame, CallError, call, call_result, call_error, heartbeat,
  heart_beat, heartbeat_request, boot_request,
}
use ocppwo.Ocpp.Frames.{parse_frame, to_json_call}
use ocppwo.Ocpp.Calls.{create_call}
use ocppwo.Ocpp.Payloads.{from_json_boot_response}
use ocppwo.Session.{
  Session, ready, booting, disconnected, Callback, boot_reply, heartbeat_reply, user, Pending,
  Effect, deliver, Outcome,
}
use ocppwo.Session.Once.{boot}
use ocppwo.Session.Calls.{
  call_back, react, boot_result, store, send_call, send_boot, on_transport_connected, timeout_found,
  timeout_expires, start_heartbeat, start_heartbeat_every, heartbeat_expires, then_rearm,
}
use ocppwo.Session.Frames.{
  close_calls, on_message, on_close, parsed_message, on_frame, result_found, error_found, unmatched,
}
use ocppwo.Session.Events.{
  Event, call_sent, message_received, connection_closed, timeout_expired, transport_connected,
  heartbeat_started, heartbeat_expired, step, run,
}

module _ (J : JsonLib) where
  open J use {Json, parse, dump, object}

  -- The boot callback gets a result that reads as an accepted boot notification.
  abbrev pub IsAccepted : Effect Json → Type 0
  IsAccepted (deliver id boot_reply (call_result r)) =
      (resp : BootNotificationResponse) × (from_json_boot_response J r.payload ≡ ok resp)
      × (resp.status ≡ "Accepted")
  IsAccepted _ = ⊥

  -- What each handler obeys: it leaves the session ready only if it was, or on an accepted boot.
  abbrev Obeys : Session → Outcome Json → Type 0
  Obeys s o = o.session.state ≡ ready → (s.state ≡ ready) ⊎ Any IsAccepted o.effects

  boot_result-ready :
      (r : Result BootNotificationResponse) (s : Session)
      → (boot_result J r s).session.state ≡ ready
      → (s.state ≡ ready)
        ⊎ ((resp : BootNotificationResponse) × (r ≡ ok resp) × (resp.status ≡ "Accepted"))
  unfolding boot_result
  boot_result-ready (throws what) s h = inl h
  boot_result-ready (ok r) s h = elim (Bool-cases (str_eq r.status "Accepted")) [
    | inl e ↦ inr (r, refl, ground (arith, e, eq_iff r.status "Accepted"))
    | inr e ↦ inl (ground (arith, e))
  ]

  call_back-Obeys :
      (id : String) (o : Option Callback) (f : OcppFrame Json) (s : Session)
      → Obeys s (call_back J id o f s)
  unfolding call_back react
  call_back-Obeys id none f s h = inl h
  call_back-Obeys id (some boot_reply) (call c) s h = inl h
  call_back-Obeys id (some boot_reply) (call_result r) s h =
      elim (boot_result-ready (from_json_boot_response J r.payload) s h) [
        | inl e ↦ inl e
        | inr a ↦ inr (inl a)
      ]
  call_back-Obeys id (some boot_reply) (call_error e) s h = inl h
  call_back-Obeys id (some heartbeat_reply) f s h = inl h
  call_back-Obeys id (some (user n)) f s h = inl h

  -- The same from a session whose state is s.
  Obeys-from : (s s' : Session) (o : Outcome Json) → s'.state ≡ s.state → Obeys s' o → Obeys s o
  Obeys-from s s' o e h r = elim (h r) [ inl q ↦ inl (sym e ∙ q) | inr a ↦ inr a ]

  store-state :
      (r : Result String) (id : String) (p : Pending) (timeout : ℕ) (s : Session)
      → (store J r id p timeout s).session.state ≡ s.state
  unfolding store
  store-state (throws what) id p timeout s = refl
  store-state (ok line) id p timeout s = refl

  found-Obeys : (id : String) (o : Option Pending) (s : Session) → Obeys s (timeout_found J id o s)
  unfolding timeout_found
  found-Obeys id none s h = inl h
  found-Obeys id (some p) s h = call_back-Obeys id p.resolve _ _ h

  on_frame-Obeys : (f : OcppFrame Json) (s : Session) → Obeys s (on_frame J f s)
  unfolding on_frame result_found error_found unmatched
  on_frame-Obeys (call c) s h = inl h
  on_frame-Obeys (call_result r) s h = go (lookup r.message_id s.pending) h
    where
      go : (o : Option Pending) → Obeys s (result_found J r o s)
      go none h = inl h
      go (some p) h = elim (call_back-Obeys r.message_id p.resolve _ _ h) [
        | inl e ↦ inl e
        | inr a ↦ inr (inr a)
      ]
  on_frame-Obeys (call_error e) s h = go (lookup e.message_id s.pending) h
    where
      go : (o : Option Pending) → Obeys s (error_found J e o s)
      go none h = inl h
      go (some p) h = elim (call_back-Obeys e.message_id p.resolve _ _ h) [
        | inl e ↦ inl e
        | inr a ↦ inr (inr a)
      ]

  -- The session's own callbacks change nothing on an error.
  call_back-session :
      (id : String) (o : Option Callback) (e : CallError Json) (s : Session)
      → (call_back J id o (call_error e) s).session ≡ s
  unfolding call_back react
  call_back-session id none e s = refl
  call_back-session id (some boot_reply) e s = refl
  call_back-session id (some heartbeat_reply) e s = refl
  call_back-session id (some (user n)) e s = refl

  close_calls-state :
      (m : List (String × Pending)) (s : Session) → (close_calls J m s).session.state ≡ s.state
  unfolding close_calls
  close_calls-state [] s = refl
  close_calls-state ((id, p) ∷ m) s =
      close_calls-state m _ ∙ ap (λ x. x.state) (call_back-session id p.resolve _ s)

  rearm-state :
      (i : ℤ) (t : Option String) (o : Outcome Json)
      → (then_rearm J i t o).session.state ≡ o.session.state
  unfolding then_rearm start_heartbeat_every
  rearm-state i none o = refl
  rearm-state i (some what) o = refl

  heartbeat-state :
      (id : String) (i : ℤ) (s : Session) → (heartbeat_expires J id i s).session.state ≡ s.state
  unfolding heartbeat_expires send_call
  heartbeat-state id i s = ground (
    arith,
    rearm-state i
        (send_call J id (heartbeat heart_beat) (some heartbeat_reply) 10
          (record s { timer = none })).thrown
        (send_call J id (heartbeat heart_beat) (some heartbeat_reply) 10
          (record s { timer = none })),
    store-state (dump (to_json_call J (create_call J id (heartbeat heart_beat)))) id
        (record { resolve = some heartbeat_reply; request = heartbeat_request }) 10
        (record s { timer = none }),
  )

  step-Obeys : (s : Session) (e : Event) → Obeys s (step J s e)
  unfolding step send_call send_boot on_transport_connected on_message parsed_message on_close
      timeout_expires start_heartbeat start_heartbeat_every
  step-Obeys s (call_sent id p on_reply timeout) h = inl (sym (store-state _ id _ timeout s) ∙ h)
  step-Obeys s (message_received text) h = go (parse text >>= parse_frame J) h
    where
      go : (r : Result (OcppFrame Json)) → Obeys s (parsed_message J r s)
      go (throws what) h = inl h
      go (ok f) h = on_frame-Obeys f s h
  step-Obeys s connection_closed h = absurd (
      ground
        (arith, h, close_calls-state s.pending (record s { state = disconnected; pending = [] })))
  step-Obeys s (timeout_expired id) h = found-Obeys id _ _ h
  step-Obeys s (transport_connected id) h = absurd (
      ground (
        arith,
        h,
        store-state (dump (to_json_call J (create_call J id boot))) id _ 10
            (record s { state = booting }),
      ))
  step-Obeys s heartbeat_started h = inl (ground (arith, h))
  step-Obeys s (heartbeat_expired id i) h = inl (sym (heartbeat-state id i s) ∙ h)

  -- If a session is ready after any sequence of events, then it was ready at the start or one of
  -- its boot requests was answered by a result that reads as accepted.
  pub run-ready :
      (s : Session) (es : List Event)
      → (run J s es).0.state ≡ ready
      → (s.state ≡ ready) ⊎ Any IsAccepted (run J s es).1
  unfolding run
  run-ready s [] h = inl h
  run-ready s (e ∷ es) h = elim (run-ready (step J s e).session es h) [
    | inr a ↦ inr (Any-append_right IsAccepted (step J s e).effects _ a)
    | inl now ↦ elim (step-Obeys s e now) [
      | inl q ↦ inl q
      | inr a ↦ inr (Any-append_left IsAccepted (step J s e).effects _ a)
    ]
  ]

  -- A session that the transport reports connected, or whose connection is closed, is not ready,
  -- and then the heartbeat timer sends nothing and is not armed again.
  pub heartbeat_expires-offline :
      (s : Session) (id k : String) (i : ℤ)
      → let up = (step J s (transport_connected id)).session in
        let down = (step J s connection_closed).session in
        (heartbeat_expires J k i up
          ≡ record { session = record up { timer = none }; effects = []; thrown = none })
        × (heartbeat_expires J k i down
            ≡ record { session = record down { timer = none }; effects = []; thrown = none })
  unfolding heartbeat_expires step on_transport_connected send_boot send_call on_close
  heartbeat_expires-offline s id k i = (
    ground (
      arith,
      store-state (dump (to_json_call J (create_call J id boot))) id
          (record { resolve = some boot_reply; request = boot_request }) 10
          (record s { state = booting }),
    ),
    ground (arith, close_calls-state s.pending (record s { state = disconnected; pending = [] })),
  )
