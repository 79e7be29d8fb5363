-- ===== src/Session/Refine.antt =====
-- What a run of the session shows of one call is a life of that call.
use mathlib.Core.List.{append-nil}
use ocppwo.Common.{
  ◌≡◌, refl, sym, ap, ◌∙◌, Bool, true, false, Option, none, some, List, [], ◌∷◌, ◌++◌, String,
  str_eq, eq_iff, if◌then◌else◌, inl, inr, Bool-cases, Result, ok, throws, ◌>>=◌, arith, ℕ, ℤ,
  lookup, IsUnique, emplace,
}
use ocppwo.Json.{JsonLib}
use ocppwo.Metrics.Ops.{connection_closed_failures_total_increment, timeouts_total_increment}
use ocppwo.Ocpp.{OcppPayload, heartbeat, heart_beat, OcppFrame}
use ocppwo.Ocpp.Frames.{to_json_call, parse_frame}
use ocppwo.Ocpp.Calls.{create_call}
use ocppwo.Session.{
  done, Session, disconnected, booting, Callback, boot_reply, heartbeat_reply, Pending,
  arm_heartbeat, Outcome,
}
use ocppwo.Session.Calls.{
  call_back, store, start_timer, send_call, send_boot, on_transport_connected, timeout_expires,
  start_heartbeat, heartbeat_expires, then_rearm, is_ready, start_heartbeat_every, error_frame,
  request_of,
}
use ocppwo.Session.Frames.{close_calls, cancel_all, on_message, on_close}
use ocppwo.Session.Events.{
  Event, call_sent, message_received, connection_closed, timeout_expired, transport_connected,
  heartbeat_started, heartbeat_expired, step, run,
}
use ocppwo.Session.Balance.{call_back-delivered}
use ocppwo.Session.Once.{step-Balance, boot}
use ocppwo.Session.Life.{
  deliveries, told, rests, opens, repeats, ends, Life, over, goes_on, Mark, marks, tellings,
}
use ocppwo.Session.Trace.{if_printed, sent_as, sent_at, trace}
use ocppwo.Session.Shows.{
  Shows, shows, deliveries-append, call_back-told, timeout-Shows, parsed-Shows,
}

module _ (J : JsonLib) where
  open J use {Json, dump, parse, object}

  cancel_all-tells_none :
      (id : String) (m : List (String × Pending)) → deliveries id (cancel_all J m) ≡ []
  cancel_all-tells_none id [] = refl
  cancel_all-tells_none id ((k, p) ∷ m) = cancel_all-tells_none id m

  abbrev closed_frame : String → OcppFrame Json
  closed_frame id = error_frame J id "ConnectionClosed" "Connection closed before reply" (object [])

  abbrev told_closed : String → Option Pending → List (Callback × OcppFrame Json)
  told_closed id none = []
  told_closed id (some p) = told p.resolve (closed_frame id)

  close_calls-told :
      (id : String) (m : List (String × Pending)) (s : Session)
      → IsUnique m
      → (deliveries id (close_calls J m s).effects ≡ told_closed id (lookup id m))
        × ((close_calls J m s).session.pending ≡ s.pending)
  unfolding close_calls lookup
  close_calls-told id [] s u = (refl, refl)
  close_calls-told id ((k, p) ∷ m) s u =
      let (rest, last) = close_calls-told id m after u.1 in
      (
        (deliveries-append id (call_back J k p.resolve (closed_frame k) s).effects _)
            ∙ ground
                (arith, call_back-told J k p.resolve (closed_frame k) s id, rest, u.0, eq_iff k id),
        last ∙ (call_back-delivered J k p.resolve (closed_frame k) s id).0,
      )
    where
      after : Session
      after = record (call_back J k p.resolve (closed_frame k) s).session {
        metrics =
            connection_closed_failures_total_increment
              (call_back J k p.resolve (closed_frame k) s).session.metrics;
      }

  on_close-told :
      (id : String) (s : Session)
      → IsUnique s.pending
      → (deliveries id (on_close J s).effects ≡ told_closed id (lookup id s.pending))
        × (lookup id (on_close J s).session.pending ≡ none)
  unfolding on_close lookup
  on_close-told id s u =
      let (paid, left) =
        close_calls-told id s.pending (record s { state = disconnected; pending = [] }) u in
      (
        deliveries-append id (cancel_all J s.pending)
              (close_calls J s.pending (record s { state = disconnected; pending = [] })).effects
            ∙ rw (cancel_all-tells_none id s.pending) paid,
        ap (lookup id) left,
      )

  -- Two sessions whose tables of pending calls hold the same entries under distinct ids, in
  -- whatever order, tell each call the same when their connection closes.
  pub on_close_unordered :
      (id : String) (s t : Session)
      → IsUnique s.pending
      → IsUnique t.pending
      → ((k : String) → lookup k s.pending ≡ lookup k t.pending)
      → deliveries id (on_close J s).effects ≡ deliveries id (on_close J t).effects
  on_close_unordered id s t u v same =
      (on_close-told id s u).0 ∙ ap (told_closed id) (same id) ∙ sym (on_close-told id t v).0

  -- The close ends every call, whatever the order of the table.
  on_close-Shows : (id : String) (s : Session) → IsUnique s.pending → Shows J id [] s (on_close J s)
  unfolding on_close lookup
  on_close-Shows id s u = go (lookup id s.pending) refl
    where
      go : (o : Option Pending) → lookup id s.pending ≡ o → Shows J id [] s (on_close J s)
      go none e =
          shows J id s (on_close J s) (rests none) e (rw e at (on_close-told id s u).0)
            (on_close-told id s u).1
      go (some p) e =
          shows J id s (on_close J s) (ends p (closed_frame id) refl refl) e
            (rw e at (on_close-told id s u).0) (on_close-told id s u).1

  store-Shows :
      (r : Result String) (k id : String) (p : Pending) (timeout : ℕ) (s : Session)
      → Shows J id (if str_eq k id then if_printed r p else []) s (store J r k p timeout s)
  unfolding store start_timer emplace lookup
  store-Shows (throws what) k id p timeout s = elim (Bool-cases (str_eq k id)) [
    | inl h ↦ rw h (rests (lookup id s.pending))
    | inr h ↦ rw h (rests (lookup id s.pending))
  ]
  store-Shows (ok line) k id p timeout s = elim (Bool-cases (str_eq k id)) [
    | inl h ↦ rw h (mine (lookup k s.pending) refl h)
    | inr h ↦ rw h (
        shows J id s (store J (ok line) k p timeout s) (rests (lookup id s.pending)) refl
          (ground arith) (another (lookup k s.pending) refl h))
  ]
    where
      another :
          (o : Option Pending)
          → lookup k s.pending ≡ o
          → str_eq k id ≡ false
          → lookup id (store J (ok line) k p timeout s).session.pending ≡ lookup id s.pending
      another none e h = ground arith
      another (some w) e h = ground arith

      mine :
          (o : Option Pending)
          → lookup k s.pending ≡ o
          → str_eq k id ≡ true
          → Shows J id (p ∷ []) s (store J (ok line) k p timeout s)
      mine (some w) e h =
          shows J id s (store J (ok line) k p timeout s) (repeats w p) (ground (arith, eq_iff k id))
            (ground arith) (ground (arith, eq_iff k id))
      mine none e h =
          shows J id s (store J (ok line) k p timeout s) (opens p) (ground (arith, eq_iff k id))
            (ground arith) (ground (arith, eq_iff k id))

  send_call-Shows :
      (k id : String) (p : OcppPayload) (cb : Option Callback) (timeout : ℕ) (s : Session)
      → Shows J id (sent_as J id k p cb) s (send_call J k p cb timeout s)
  unfolding send_call
  send_call-Shows k id p cb timeout s =
      store-Shows (dump (to_json_call J (create_call J k p))) k id
        (record { resolve = cb; request = request_of p }) timeout s

  rearm-Shows :
      (id : String) (ps : List Pending) (i : ℤ) (t : Option String) (s : Session) (o : Outcome Json)
      → Shows J id ps s o
      → Shows J id ps s (then_rearm J i t o)
  unfolding then_rearm start_heartbeat_every
  rearm-Shows id ps i (some what) s o m = m
  rearm-Shows id ps i none s o m =
      shows J id s (then_rearm J i none o) m refl
        (deliveries-append id o.effects (arm_heartbeat i ∷ [])
          ∙ append-nil (deliveries id o.effects))
        refl

  abbrev beat : String → Session → Outcome Json
  beat k s =
      send_call J k (heartbeat heart_beat) (some heartbeat_reply) 10 (record s { timer = none })

  heartbeat-Shows :
      (id k : String) (i : ℤ) (s : Session) (b : Bool)
      → Shows J id
          (if b then sent_as J id k (heartbeat heart_beat) (some heartbeat_reply) else [])
          s
          (if b
            then then_rearm J i (beat k s).thrown (beat k s)
            else done (record s { timer = none }) [])
  heartbeat-Shows id k i s false = rests (lookup id s.pending)
  heartbeat-Shows id k i s true =
      rearm-Shows id (sent_as J id k (heartbeat heart_beat) (some heartbeat_reply)) i
        (beat k s).thrown s (beat k s)
        (send_call-Shows k id (heartbeat heart_beat) (some heartbeat_reply) 10
          (record s { timer = none }))

  step-Shows :
      (id : String) (s : Session) (e : Event)
      → IsUnique s.pending
      → Shows J id (sent_at J id s e) s (step J s e)
  unfolding step on_transport_connected send_boot start_heartbeat start_heartbeat_every
      timeout_expires on_message heartbeat_expires
  step-Shows id s (call_sent k p cb timeout) u = send_call-Shows k id p cb timeout s
  step-Shows id s (message_received text) u = parsed-Shows J (parse text >>= parse_frame J) id s
  step-Shows id s connection_closed u = on_close-Shows id s u
  step-Shows id s (timeout_expired k) u =
      timeout-Shows J k id (lookup k s.pending)
        (record s { metrics = timeouts_total_increment s.metrics }) refl
  step-Shows id s (transport_connected k) u =
      send_call-Shows k id boot (some boot_reply) 10 (record s { state = booting })
  step-Shows id s heartbeat_started u =
      shows J id s (step J s heartbeat_started) (rests (lookup id s.pending)) refl (ground arith)
        (ground arith)
  step-Shows id s (heartbeat_expired k i) u = heartbeat-Shows id k i s (is_ready s.state)

  tellings-marks :
      (ps : List Pending) (xs : List (Callback × OcppFrame Json)) (ms : List (Mark Json))
      → tellings (marks ps xs ++ ms) ≡ xs ++ tellings ms
  tellings-marks [] [] ms = refl
  tellings-marks [] (x ∷ xs) ms = ap (λ l. x ∷ l) (tellings-marks [] xs ms)
  tellings-marks (p ∷ ps) xs ms = tellings-marks ps xs ms

  -- The session refines the life of each call. Seen through one id, any sequence of events of a
  -- session whose pending ids are distinct is a life, from what is pending under the id at its start
  -- to what is at its end: a call that is sent under the id while none is pending opens it, with the
  -- caller's callback and request; one that is sent while one is pending changes nothing; and it
  -- ends at most once for each opening, when its callback, if it has one, is invoked exactly once,
  -- with a CallResult or CallError that has its id. The callbacks in that life are all that the run
  -- invokes for the id.
  pub run-Life :
      (id : String) (s : Session) (es : List Event)
      → IsUnique s.pending
      → Life Json id (lookup id s.pending) (trace J id s es) (lookup id (run J s es).0.pending)
        × (tellings (trace J id s es) ≡ deliveries id (run J s es).1)
  unfolding run
  run-Life id s [] u = (over (lookup id s.pending), refl)
  run-Life id s (e ∷ es) u =
      let o = step J s e in
      let (life, same) = run-Life id o.session es ((step-Balance J id s e u).1 u) in
      (
        goes_on (step-Shows id s e u) life,
        tellings-marks (sent_at J id s e) (deliveries id o.effects) (trace J id o.session es)
            ∙ ap (λ l. deliveries id o.effects ++ l) same
            ∙ sym (deliveries-append id o.effects (run J o.session es).1),
      )
