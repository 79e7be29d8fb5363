-- ===== src/Session/Balance.antt =====
-- The completions that a session owes, and those that it delivers: what each handler changes.
use ocppwo.Common.{
  ℕ, ◌+◌, ◌≡◌, refl, sym, ap, subst, ◌∙◌, Option, none, some, List, [], ◌∷◌, ◌++◌, String, str_eq,
  eq_iff, if◌then◌else◌, Result, ok, throws, arith, lookup, erase, lookup-erase, IsUnique,
  erase-IsUnique,
}
use ocppwo.Json.{JsonLib}
use ocppwo.Ocpp.{CallResult, CallError, OcppFrame, call, call_result, call_error}
use ocppwo.Session.{
  Session, Callback, boot_reply, heartbeat_reply, user, Pending, Effect, transmit, deliver,
  signal_boot_accepted, arm_timeout, join_timeout, cancel_timeout, arm_heartbeat, Outcome,
}
use ocppwo.Session.Calls.{call_back, react, timeout_found}
use ocppwo.Session.Frames.{on_frame, result_found, error_found, parsed_message, unmatched}

-- How often a completion callback is invoked for this id.
abbrev pub delivered : {Json : Type 0} → String → List (Effect Json) → ℕ
delivered id [] = 0
delivered id (deliver k cb f ∷ es) = (if str_eq k id then 1 else 0) + delivered id es
delivered id (_ ∷ es) = delivered id es

-- A pending entry that has a callback counts 1.
abbrev pub owed : Option Callback → ℕ
owed none = 0
owed (some cb) = 1

abbrev pub owed_by : Option Pending → ℕ
owed_by none = 0
owed_by (some p) = owed p.resolve

-- How many callbacks the session still owes for this id.
abbrev pub waiting : String → Session → ℕ
waiting id s = owed_by (lookup id s.pending)

pub delivered-append :
    {Json : Type 0} (id : String) (xs ys : List (Effect Json))
    → delivered id (xs ++ ys) ≡ delivered id xs + delivered id ys
delivered-append id [] ys = omega arith
delivered-append id (deliver k cb f ∷ xs) ys = omega (arith, delivered-append id xs ys)
delivered-append id (transmit line ∷ xs) ys = delivered-append id xs ys
delivered-append id (signal_boot_accepted ∷ xs) ys = delivered-append id xs ys
delivered-append id (arm_timeout k n ∷ xs) ys = delivered-append id xs ys
delivered-append id (join_timeout k ∷ xs) ys = delivered-append id xs ys
delivered-append id (cancel_timeout k ∷ xs) ys = delivered-append id xs ys
delivered-append id (arm_heartbeat i ∷ xs) ys = delivered-append id xs ys

module _ (J : JsonLib) where
  open J use {Json}

  -- The session's own callbacks leave the pending calls alone and complete none.
  react-quiet :
      (cb : Callback) (f : OcppFrame Json) (s : Session) (id : String)
      → ((react J cb f s).session.pending ≡ s.pending) × (delivered id (react J cb f s).effects ≡ 0)
  unfolding react
  react-quiet boot_reply (call c) s id = (refl, refl)
  react-quiet boot_reply (call_result r) s id = ground arith
  react-quiet boot_reply (call_error e) s id = (refl, refl)
  react-quiet heartbeat_reply f s id = (refl, refl)
  react-quiet (user n) f s id = (refl, refl)

  pub call_back-delivered :
      (k : String) (o : Option Callback) (f : OcppFrame Json) (s : Session) (id : String)
      → ((call_back J k o f s).session.pending ≡ s.pending)
        × (delivered id (call_back J k o f s).effects ≡ (if str_eq k id then owed o else 0))
  unfolding call_back
  call_back-delivered k none f s id = (refl, ground arith)
  call_back-delivered k (some cb) f s id = ground (arith, react-quiet cb f s id)

  -- What is owed and what was paid: the outcome owes `n` more than the session did, and keeps the
  -- pending ids distinct.
  abbrev pub Balance : String → ℕ → Session → Outcome Json → Type 0
  Balance id n s o =
      (waiting id o.session + delivered id o.effects ≡ waiting id s + n)
      × (IsUnique s.pending → IsUnique o.session.pending)

  settle :
      (k id : String) (m : List (String × Pending)) (p : Pending)
      → lookup k m ≡ some p
      → owed_by (lookup id (erase k m)) + (if str_eq k id then owed p.resolve else 0)
        ≡ owed_by (lookup id m)
  settle k id m p e = ground (arith, lookup-erase k id m, eq_iff k id)

  -- Removing an entry and calling its callback.
  settle-Balance :
      (k id : String) (p : Pending) (f : OcppFrame Json) (s s' : Session)
      → lookup k s.pending ≡ some p
      → s'.pending ≡ erase k s.pending
      → Balance id 0 s (call_back J k p.resolve f s')
  settle-Balance k id p f s s' e e' =
      let (kept, paid) = call_back-delivered k p.resolve f s' id in
      (
        omega (arith, settle k id s.pending p e, ap (λ m. owed_by (lookup id m)) (kept ∙ e'), paid),
        λ u. subst IsUnique (sym (kept ∙ e')) (erase-IsUnique k s.pending u),
      )

  pub timeout-Balance :
      (k id : String) (o : Option Pending) (s : Session)
      → lookup k s.pending ≡ o
      → Balance id 0 s (timeout_found J k o s)
  unfolding timeout_found
  timeout-Balance k id none s e = (omega arith, λ u. u)
  timeout-Balance k id (some p) s e = settle-Balance k id p _ s _ e refl

  result-Balance :
      (r : CallResult Json) (id : String) (o : Option Pending) (s : Session)
      → lookup r.message_id s.pending ≡ o
      → Balance id 0 s (result_found J r o s)
  unfolding result_found unmatched
  result-Balance r id none s e = (omega arith, λ u. u)
  result-Balance r id (some p) s e = settle-Balance r.message_id id p _ s _ e refl

  error-Balance :
      (r : CallError Json) (id : String) (o : Option Pending) (s : Session)
      → lookup r.message_id s.pending ≡ o
      → Balance id 0 s (error_found J r o s)
  unfolding error_found unmatched
  error-Balance r id none s e = (omega arith, λ u. u)
  error-Balance r id (some p) s e = settle-Balance r.message_id id p _ s _ e refl

  on_frame-Balance :
      (f : OcppFrame Json) (id : String) (s : Session) → Balance id 0 s (on_frame J f s)
  unfolding on_frame
  on_frame-Balance (call c) id s = (omega arith, λ u. u)
  on_frame-Balance (call_result r) id s = result-Balance r id (lookup r.message_id s.pending) s refl
  on_frame-Balance (call_error e) id s = error-Balance e id (lookup e.message_id s.pending) s refl

  pub parsed-Balance :
      (r : Result (OcppFrame Json)) (id : String) (s : Session)
      → Balance id 0 s (parsed_message J r s)
  unfolding parsed_message
  parsed-Balance (throws what) id s = (omega arith, λ u. u)
  parsed-Balance (ok f) id s = on_frame-Balance f id s
