-- ===== src/Session/Shows.antt =====
-- What a timeout or a reply shows of one call is a move in its life.
use mathlib.Core.List.{append_assoc}
use ocppwo.Common.{
  ◌≡◌, refl, sym, ap, ◌∙◌, false, Option, none, some, List, [], ◌∷◌, ◌++◌, String, str_eq, eq_iff,
  if◌then◌else◌, inl, inr, Bool-cases, Result, ok, throws, arith, lookup, erase, lookup-erase,
}
use ocppwo.Json.{JsonLib}
use ocppwo.Ocpp.{CallResult, CallError, OcppFrame, call, call_result, call_error}
use ocppwo.Ocpp.Tagging.{frame_id}
use ocppwo.Session.{
  Session, Callback, boot_reply, heartbeat_reply, user, Pending, Effect, transmit, deliver,
  signal_boot_accepted, arm_timeout, join_timeout, cancel_timeout, arm_heartbeat, Outcome,
}
use ocppwo.Session.Calls.{call_back, react, timeout_found, error_frame}
use ocppwo.Session.Frames.{
  on_frame, result_found, error_found, parsed_message, unmatched, validate_payload, checked,
}
use ocppwo.Session.Balance.{call_back-delivered}
use ocppwo.Session.Reply.{is_call}
use ocppwo.Session.Life.{deliveries, told, Move, rests, ends}

pub deliveries-append :
    {Json : Type 0} (id : String) (xs ys : List (Effect Json))
    → deliveries id (xs ++ ys) ≡ deliveries id xs ++ deliveries id ys
deliveries-append id [] ys = refl
deliveries-append id (deliver k cb f ∷ xs) ys = rw (deliveries-append id xs ys) (
    sym (
      append_assoc (if str_eq k id then (cb, f) ∷ [] else []) (deliveries id xs)
        (deliveries id ys)))
deliveries-append id (transmit line ∷ xs) ys = deliveries-append id xs ys
deliveries-append id (signal_boot_accepted ∷ xs) ys = deliveries-append id xs ys
deliveries-append id (arm_timeout k n ∷ xs) ys = deliveries-append id xs ys
deliveries-append id (join_timeout k ∷ xs) ys = deliveries-append id xs ys
deliveries-append id (cancel_timeout k ∷ xs) ys = deliveries-append id xs ys
deliveries-append id (arm_heartbeat i ∷ xs) ys = deliveries-append id xs ys

module _ (J : JsonLib) where
  open J use {Json, dump, parse, object}

  react-tells_none :
      (cb : Callback) (f : OcppFrame Json) (s : Session) (id : String)
      → deliveries id (react J cb f s).effects ≡ []
  unfolding react
  react-tells_none boot_reply (call c) s id = refl
  react-tells_none boot_reply (call_result r) s id = ground arith
  react-tells_none boot_reply (call_error e) s id = refl
  react-tells_none heartbeat_reply f s id = refl
  react-tells_none (user n) f s id = refl

  pub call_back-told :
      (k : String) (o : Option Callback) (f : OcppFrame Json) (s : Session) (id : String)
      → deliveries id (call_back J k o f s).effects ≡ (if str_eq k id then told o f else [])
  unfolding call_back
  call_back-told k none f s id = ground arith
  call_back-told k (some cb) f s id = ground (arith, react-tells_none cb f s id)

  -- What an outcome shows of the call `id`, when these calls are sent under it, is a move.
  abbrev pub Shows : String → List Pending → Session → Outcome Json → Type 0
  Shows id ps s o =
      Move Json id (lookup id s.pending) ps (deliveries id o.effects) (lookup id o.session.pending)

  pub shows :
      (id : String) (s : Session) (o : Outcome Json) {a b : Option Pending} {ps : List Pending}
      {l : List (Callback × OcppFrame Json)}
      → Move Json id a ps l b
      → lookup id s.pending ≡ a
      → deliveries id o.effects ≡ l
      → lookup id o.session.pending ≡ b
      → Shows id ps s o
  shows id s o m e d e' = rw (e, d, e') m

  kept-Shows :
      (id : String) (s : Session) (o : Outcome Json)
      → deliveries id o.effects ≡ []
      → o.session.pending ≡ s.pending
      → Shows id [] s o
  kept-Shows id s o d e = shows id s o (rests (lookup id s.pending)) refl d (ap (lookup id) e)

  -- Removing an entry and calling its callback.
  settle-Shows :
      (k id : String) (p : Pending) (f : OcppFrame Json) (s s' : Session)
      → lookup k s.pending ≡ some p
      → frame_id f ≡ k
      → is_call f ≡ false
      → s'.pending ≡ erase k s.pending
      → Shows id [] s (call_back J k p.resolve f s')
  settle-Shows k id p f s s' e i c e' = elim (Bool-cases (str_eq k id)) [
    | inl h ↦
        shows id s (call_back J k p.resolve f s') (ends p f (ground (arith, eq_iff k id)) c)
          (ground (arith, eq_iff k id)) (rw h at (call_back-told k p.resolve f s' id)) (left ∙ rw h)
    | inr h ↦
        shows id s (call_back J k p.resolve f s') (rests (lookup id s.pending)) refl
          (rw h at (call_back-told k p.resolve f s' id)) (left ∙ rw h)
  ]
    where
      left :
          lookup id (call_back J k p.resolve f s').session.pending
          ≡ (if str_eq k id then none else lookup id s.pending)
      left =
          ap (lookup id) ((call_back-delivered J k p.resolve f s' id).0 ∙ e')
          ∙ lookup-erase k id s.pending

  checked_id :
      (r : CallResult Json) (p : Pending) (v : Result (Unit {0}))
      → (frame_id (checked J r p.request v) ≡ r.message_id)
        × (is_call (checked J r p.request v) ≡ false)
  unfolding checked
  checked_id r p (ok _) = (refl, refl)
  checked_id r p (throws what) = (refl, refl)

  pub timeout-Shows :
      (k id : String) (o : Option Pending) (s : Session)
      → lookup k s.pending ≡ o
      → Shows id [] s (timeout_found J k o s)
  unfolding timeout_found
  timeout-Shows k id none s e = rests (lookup id s.pending)
  timeout-Shows k id (some p) s e =
      settle-Shows k id p (error_frame J k "Timeout" "Request timed out" (object [])) s _ e refl
        refl refl

  result-Shows :
      (r : CallResult Json) (id : String) (o : Option Pending) (s : Session)
      → lookup r.message_id s.pending ≡ o
      → Shows id [] s (result_found J r o s)
  unfolding result_found unmatched
  result-Shows r id none s e = rests (lookup id s.pending)
  result-Shows r id (some p) s e =
      let (same, reply) = checked_id r p (validate_payload J p.request r.payload) in
      settle-Shows r.message_id id p
        (checked J r p.request (validate_payload J p.request r.payload)) s _ e same reply refl

  error-Shows :
      (r : CallError Json) (id : String) (o : Option Pending) (s : Session)
      → lookup r.message_id s.pending ≡ o
      → Shows id [] s (error_found J r o s)
  unfolding error_found unmatched
  error-Shows r id none s e = rests (lookup id s.pending)
  error-Shows r id (some p) s e = settle-Shows r.message_id id p (call_error r) s _ e refl refl refl

  on_frame-Shows : (f : OcppFrame Json) (id : String) (s : Session) → Shows id [] s (on_frame J f s)
  unfolding on_frame
  on_frame-Shows (call c) id s = rests (lookup id s.pending)
  on_frame-Shows (call_result r) id s = result-Shows r id (lookup r.message_id s.pending) s refl
  on_frame-Shows (call_error e) id s = error-Shows e id (lookup e.message_id s.pending) s refl

  pub parsed-Shows :
      (r : Result (OcppFrame Json)) (id : String) (s : Session)
      → Shows id [] s (parsed_message J r s)
  unfolding parsed_message
  parsed-Shows (throws what) id s = rests (lookup id s.pending)
  parsed-Shows (ok f) id s = on_frame-Shows f id s
