-- ===== src/Session/Once.antt =====
-- Every call is completed exactly once.
use mathlib.Core.List.{append_assoc}
use ocppwo.Common.{
  ℕ, ◌+◌, ◌≡◌, refl, sym, ap, subst, ◌∙◌, Bool, Option, none, some, List, [], ◌∷◌, ◌++◌, String,
  str_eq, eq_iff, if◌then◌else◌, Result, ok, throws, arith, ℤ, lookup, emplace, IsUnique,
  emplace-IsUnique, Option-cases, ◌>>=◌,
}
use ocppwo.Json.{JsonLib}
use ocppwo.Metrics.{Metrics}
use ocppwo.Metrics.Ops.{connection_closed_failures_total_increment, timeouts_total_increment}
use ocppwo.Ocpp.{OcppPayload, boot_notification, heartbeat, heart_beat, OcppFrame}
use ocppwo.Ocpp.Frames.{to_json_call, parse_frame}
use ocppwo.Ocpp.Calls.{create_call}
use ocppwo.Session.{
  Session, disconnected, booting, arm_heartbeat, Callback, boot_reply, heartbeat_reply, Pending,
  Outcome, new_session,
}
use ocppwo.Session.Calls.{
  call_back, store, start_timer, send_call, send_boot, on_transport_connected, timeout_expires,
  start_heartbeat, heartbeat_expires, then_rearm, is_ready, start_heartbeat_every, error_frame,
}
use ocppwo.Session.Frames.{close_calls, cancel_all, on_message, on_close}
use ocppwo.Session.Events.{
  Event, call_sent, message_received, connection_closed, timeout_expired, transport_connected,
  heartbeat_started, heartbeat_expired, step, run,
}
use ocppwo.Session.Balance.{
  delivered, delivered-append, owed, owed_by, waiting, Balance, call_back-delivered,
  timeout-Balance, parsed-Balance,
}

-- Whether a call with this printed text becomes pending under its id.
abbrev issue : Result String → Option Pending → Option Callback → ℕ
issue (throws e) o cb = 0
issue (ok line) (some p) cb = 0
issue (ok line) none cb = owed cb

-- The payload of `send_boot`.
abbrev pub boot : OcppPayload
boot = boot_notification (record { charge_point_model = "X100"; charge_point_vendor = "OpenAI" })

module _ (J : JsonLib) where
  open J use {Json, dump, parse, object}

  cancel_all-delivered :
      (id : String) (m : List (String × Pending)) → delivered id (cancel_all J m) ≡ 0
  cancel_all-delivered id [] = refl
  cancel_all-delivered id ((k, p) ∷ m) = cancel_all-delivered id m

  close_calls-delivered :
      (id : String) (m : List (String × Pending)) (s : Session)
      → IsUnique m
      → (delivered id (close_calls J m s).effects ≡ owed_by (lookup id m))
        × ((close_calls J m s).session.pending ≡ s.pending)
  unfolding close_calls lookup
  close_calls-delivered id [] s u = (refl, refl)
  close_calls-delivered id ((k, p) ∷ m) s u =
      let (kept, paid) = call_back-delivered J k p.resolve closed_frame s id in
      let (rest, last) = close_calls-delivered id m after u.1 in
      (
        (delivered-append id (call_back J k p.resolve closed_frame s).effects _)
            ∙ ground (arith, paid, rest, u.0, eq_iff k id),
        last ∙ kept,
      )
    where
      closed_frame : OcppFrame Json
      closed_frame = error_frame J k "ConnectionClosed" "Connection closed before reply" (object [])

      after : Session
      after = record (call_back J k p.resolve closed_frame s).session {
        metrics =
            connection_closed_failures_total_increment
              (call_back J k p.resolve closed_frame s).session.metrics;
      }

  on_close-delivered :
      (id : String) (s : Session)
      → IsUnique s.pending
      → (delivered id (on_close J s).effects ≡ waiting id s) × ((on_close J s).session.pending ≡ [])
  unfolding on_close
  on_close-delivered id s u =
      let (paid, kept) =
        close_calls-delivered id s.pending (record s { state = disconnected; pending = [] }) u in
      (
        omega (
          arith,
          delivered-append id (cancel_all J s.pending)
              (close_calls J s.pending (record s { state = disconnected; pending = [] })).effects,
          cancel_all-delivered id s.pending,
          paid,
        ),
        kept,
      )

  store-Balance :
      (r : Result String) (k id : String) (p : Pending) (timeout : ℕ) (s : Session)
      → Balance J id
          (if str_eq k id then issue r (lookup k s.pending) p.resolve else 0)
          s
          (store J r k p timeout s)
  unfolding store start_timer emplace lookup
  store-Balance (throws what) k id p timeout s = (ground arith, λ u. u)
  store-Balance (ok line) k id p timeout s = (
    ground (arith, Option-cases (lookup k s.pending), eq_iff k id),
    emplace-IsUnique k p s.pending,
  )

  pub send_call-Balance :
      (k id : String) (p : OcppPayload) (cb : Option Callback) (timeout : ℕ) (s : Session)
      → Balance J id
          (if str_eq k id
            then issue (dump (to_json_call J (create_call J k p))) (lookup k s.pending) cb
            else 0)
          s
          (send_call J k p cb timeout s)
  unfolding send_call
  send_call-Balance k id p cb timeout s =
      store-Balance (dump (to_json_call J (create_call J k p))) k id _ timeout s

  -- The callbacks that become owed when this call is sent under the id `k`.
  abbrev owed_for : String → String → OcppPayload → Option Callback → Session → ℕ
  owed_for id k p cb s =
      if str_eq k id
      then issue (dump (to_json_call J (create_call J k p))) (lookup k s.pending) cb
      else 0

  -- The callbacks for this id that become owed at an event: one when a call is printed under an id
  -- that is not pending, and has a callback.
  abbrev pub issued : String → Session → Event → ℕ
  issued id s (call_sent k p cb timeout) = owed_for id k p cb s
  issued id s (transport_connected k) = owed_for id k boot (some boot_reply) s
  issued id s (heartbeat_expired k i) =
      if is_ready s.state then owed_for id k (heartbeat heart_beat) (some heartbeat_reply) s else 0
  issued id s _ = 0

  abbrev pub issued_by : String → Session → List Event → ℕ
  issued_by id s [] = 0
  issued_by id s (e ∷ es) = issued id s e + issued_by id (step J s e).session es

  rearm-Balance :
      (id : String) (n : ℕ) (i : ℤ) (t : Option String) (s : Session) (o : Outcome Json)
      → Balance J id n s o
      → Balance J id n s (then_rearm J i t o)
  unfolding then_rearm start_heartbeat_every
  rearm-Balance id n i (some what) s o b = b
  rearm-Balance id n i none s o b =
      (omega (arith, b.0, delivered-append id o.effects (arm_heartbeat i ∷ [])), b.1)

  pub step-Balance :
      (id : String) (s : Session) (e : Event)
      → IsUnique s.pending
      → Balance J id (issued id s e) s (step J s e)
  unfolding step on_transport_connected send_boot start_heartbeat start_heartbeat_every
      timeout_expires on_message heartbeat_expires lookup
  step-Balance id s (call_sent k p cb timeout) u = send_call-Balance k id p cb timeout s
  step-Balance id s (message_received text) u = parsed-Balance J (parse text >>= parse_frame J) id s
  step-Balance id s connection_closed u =
      let (paid, last) = on_close-delivered id s u in
      (omega (arith, paid, ap (λ m. owed_by (lookup id m)) last), λ v. subst IsUnique (sym last) tt)
  step-Balance id s (timeout_expired k) u =
      timeout-Balance J k id (lookup k s.pending)
        (record s { metrics = timeouts_total_increment s.metrics }) refl
  step-Balance id s (transport_connected k) u =
      send_call-Balance k id boot (some boot_reply) 10 (record s { state = booting })
  step-Balance id s heartbeat_started u = ground arith
  step-Balance id s (heartbeat_expired k i) u = ground (
    arith,
    rearm-Balance id (owed_for id k (heartbeat heart_beat) (some heartbeat_reply) s) i
        (send_call J k (heartbeat heart_beat) (some heartbeat_reply) 10
          (record s { timer = none })).thrown
        s
        (send_call J k (heartbeat heart_beat) (some heartbeat_reply) 10 (record s { timer = none }))
        (send_call-Balance k id (heartbeat heart_beat) (some heartbeat_reply) 10
          (record s { timer = none })),
  )

  -- Over any sequence of events of a session whose pending ids are distinct, each id's callbacks
  -- are neither lost nor invoked twice: those still owed and those invoked add up to those owed at
  -- the start and those issued since. The pending ids stay distinct.
  pub run-delivered :
      (id : String) (s : Session) (es : List Event)
      → IsUnique s.pending
      → (waiting id (run J s es).0 + delivered id (run J s es).1 ≡ waiting id s + issued_by id s es)
        × IsUnique (run J s es).0.pending
  unfolding run
  run-delivered id s [] u = (omega arith, u)
  run-delivered id s (e ∷ es) u =
      let (now, fresh) = step-Balance id s e u in
      let (later, last) = run-delivered id (step J s e).session es (fresh u) in
      (
        omega (
          arith,
          now,
          later,
          delivered-append id (step J s e).effects (run J (step J s e).session es).1,
        ),
        last,
      )

  run-append :
      (s : Session) (es fs : List Event)
      → run J s (es ++ fs)
        ≡ ((run J (run J s es).0 fs).0, (run J s es).1 ++ (run J (run J s es).0 fs).1)
  unfolding run
  run-append s [] fs = refl
  run-append s (e ∷ es) fs = rw (run-append (step J s e).session es fs) (
      ap (λ l. ((run J (run J s (e ∷ es)).0 fs).0, l))
        (sym (
          append_assoc (step J s e).effects (run J (step J s e).session es).1
            (run J (run J (step J s e).session es).0 fs).1)))

  -- Whatever happens to a new session, once its connection is closed no call is pending and every
  -- callback issued was invoked, exactly once per call: by the reply, by the timeout or by the
  -- close.
  pub run-connection_closed :
      (id : String) (metrics : Metrics) (b : Bool) (es : List Event)
      → (delivered id (run J (new_session metrics b) (es ++ connection_closed ∷ [])).1
          ≡ issued_by id (new_session metrics b) es)
        × ((run J (new_session metrics b) (es ++ connection_closed ∷ [])).0.pending ≡ [])
  unfolding run step lookup
  run-connection_closed id metrics b es =
      let (balance, u) = run-delivered id (new_session metrics b) es tt in
      let (paid, last) = on_close-delivered id (run J (new_session metrics b) es).0 u in
      (
        rw (run-append (new_session metrics b) es (connection_closed ∷ [])) (
            omega (
              arith,
              balance,
              paid,
              delivered-append id (run J (new_session metrics b) es).1
                  ((on_close J (run J (new_session metrics b) es).0).effects ++ []),
              delivered-append id (on_close J (run J (new_session metrics b) es).0).effects [],
            )),
        rw (run-append (new_session metrics b) es (connection_closed ∷ [])) last,
      )
