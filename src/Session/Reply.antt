-- ===== src/Session/Reply.antt =====
-- Which call a reply completes, and with what.
use ocppwo.Common.{
  ◌≡◌, refl, ap, ◌∙◌, Bool, true, false, Option, none, some, List, [], String, str_eq, eq_iff,
  if◌then◌else◌, ◌⊎◌, inl, inr, Result, ok, throws, arith, All, lookup, erase, lookup-erase, Throws,
}
use ocppwo.Json.{JsonLib}
use ocppwo.Ocpp.{
  BootNotificationResponse, CallError, OcppFrame, CallResult, call, call_result, call_error,
  RequestTag,
}
use ocppwo.Ocpp.Payloads.{from_json_boot_response}
use ocppwo.Ocpp.Tagging.{frame_id}
use ocppwo.Session.{
  Session, Callback, boot_reply, heartbeat_reply, user, Pending, Effect, deliver, done, ready,
}
use ocppwo.Session.Calls.{call_back, react, boot_result, emit_boot_accepted}
use ocppwo.Session.Frames.{
  on_frame, result_found, error_found, unmatched, validate_payload, checked,
}
use ocppwo.Session.Balance.{call_back-delivered}

abbrev pub code_of : {Json : Type 0} → OcppFrame Json → Option String
code_of (call_error e) = some e.error_code
code_of _ = none

abbrev pub is_call : {Json : Type 0} → OcppFrame Json → Bool
is_call (call c) = true
is_call _ = false

module _ (J : JsonLib) where
  open J use {Json}

  -- The frame that a callback gets on a reply: the reply itself, with a payload that reads as the
  -- response the call waits for, or a protocol error with the reply's id in place of one that does
  -- not.
  abbrev pub Answers : OcppFrame Json → RequestTag → OcppFrame Json → Type 0
  Answers (call c) request g = ⊥
  Answers (call_error e) request g = g ≡ call_error e
  Answers (call_result r) request g =
      (validate_payload J request r.payload ≡ ok tt) × (g ≡ call_result r)
      ⊎ Throws (validate_payload J request r.payload)
        × (frame_id g ≡ r.message_id)
        × (code_of g ≡ some "ProtocolError")

  -- A callback invoked on a frame is that of the pending call that the frame names.
  abbrev pub IsFor : OcppFrame Json → Session → Effect Json → Type 0
  IsFor f s (deliver k cb g) =
      (k ≡ frame_id f)
      × ((p : Pending) × (lookup k s.pending ≡ some p)
          × (p.resolve ≡ some cb)
          × Answers f p.request g)
  IsFor f s _ = Unit

  boot_result-IsFor :
      (f : OcppFrame Json) (s s' : Session) (r : Result BootNotificationResponse)
      → All (IsFor f s) (boot_result J r s').effects
  unfolding boot_result
  boot_result-IsFor f s s' (throws what) = tt
  boot_result-IsFor f s s' (ok r) = go (str_eq r.status "Accepted") s'.boot_observer
    where
      go :
          (a b : Bool)
          → All
              (IsFor f s)
              (if a
                then done
                    (record s' { state = ready; heartbeat_interval = r.interval })
                    (emit_boot_accepted J b)
                else done s' []).effects
      go true true = (tt, tt)
      go true false = tt
      go false b = tt

  react-IsFor :
      (f g : OcppFrame Json) (s s' : Session) (cb : Callback)
      → All (IsFor f s) (react J cb g s').effects
  unfolding react
  react-IsFor f (call_result r) s s' boot_reply =
      boot_result-IsFor f s s' (from_json_boot_response J r.payload)
  react-IsFor f (call_error e) s s' boot_reply = tt
  react-IsFor f (call c) s s' boot_reply = tt
  react-IsFor f g s s' heartbeat_reply = tt
  react-IsFor f g s s' (user n) = tt

  call_back-IsFor :
      (f g : OcppFrame Json) (s s' : Session) (p : Pending)
      → lookup (frame_id f) s.pending ≡ some p
      → Answers f p.request g
      → All (IsFor f s) (call_back J (frame_id f) p.resolve g s').effects
  unfolding call_back
  call_back-IsFor f g s s' p e a = go p.resolve refl
    where
      go :
          (o : Option Callback)
          → p.resolve ≡ o
          → All (IsFor f s) (call_back J (frame_id f) o g s').effects
      go none q = tt
      go (some cb) q = ((refl, (p, e, q, a)), react-IsFor f g s s' cb)

  checked-Answers :
      (r : CallResult Json) (request : RequestTag) (v : Result (Unit {0}))
      → validate_payload J request r.payload ≡ v
      → Answers (call_result r) request (checked J r request v)
  unfolding checked
  checked-Answers r request (ok _) e = inl (e, refl)
  checked-Answers r request (throws what) e = inr ((what, e), refl, refl)

  -- Whatever frame comes in, a callback is invoked only for the call that it answers, and gets the
  -- frame, or an error with the same id if the payload is not the response that the call expects.
  pub on_frame-IsFor : (f : OcppFrame Json) (s : Session) → All (IsFor f s) (on_frame J f s).effects
  unfolding on_frame result_found error_found
  on_frame-IsFor (call c) s = tt
  on_frame-IsFor (call_result r) s = go (lookup r.message_id s.pending) refl
    where
      go :
          (o : Option Pending)
          → lookup r.message_id s.pending ≡ o
          → All (IsFor (call_result r) s) (result_found J r o s).effects
      go none e = tt
      go (some p) e =
          (tt, call_back-IsFor (call_result r) _ s _ p e (checked-Answers r p.request _ refl))
  on_frame-IsFor (call_error e) s = go (lookup e.message_id s.pending) refl
    where
      go :
          (o : Option Pending)
          → lookup e.message_id s.pending ≡ o
          → All (IsFor (call_error e) s) (error_found J e o s).effects
      go none q = tt
      go (some p) q = (tt, call_back-IsFor (call_error e) _ s _ p q refl)

  -- Once a reply was handled, its id is not pending.
  handled :
      (id : String) (o : Option Callback) (f : OcppFrame Json) (s : Session)
      (m : List (String × Pending))
      → s.pending ≡ erase id m
      → lookup id (call_back J id o f s).session.pending ≡ none
  handled id o f s m e =
      ap (lookup id) ((call_back-delivered J id o f s id).0 ∙ e)
      ∙ ground (arith, lookup-erase id id m, eq_iff id id)

  result-handled :
      (r : CallResult Json) (o : Option Pending) (s : Session)
      → lookup r.message_id s.pending ≡ o
      → lookup r.message_id (result_found J r o s).session.pending ≡ none
  unfolding result_found unmatched
  result-handled r none s e = e
  result-handled r (some p) s e = handled r.message_id p.resolve _ _ s.pending refl

  error-handled :
      (r : CallError Json) (o : Option Pending) (s : Session)
      → lookup r.message_id s.pending ≡ o
      → lookup r.message_id (error_found J r o s).session.pending ≡ none
  unfolding error_found unmatched
  error-handled r none s e = e
  error-handled r (some p) s e = handled r.message_id p.resolve _ _ s.pending refl

  -- A session that the same frame reaches twice in a row does nothing the second time but count it
  -- as unmatched if it is a CallResult or a CallError: it invokes no callback and cancels no timeout.
  pub on_frame_twice :
      (f : OcppFrame Json) (s : Session)
      → let once = (on_frame J f s).session in
        ((on_frame J f once).effects ≡ [])
        × ((on_frame J f once).session ≡ (if is_call f then once else unmatched J once))
  unfolding on_frame result_found error_found
  on_frame_twice (call c) s = (refl, refl)
  on_frame_twice (call_result r) s =
      rw (result-handled r (lookup r.message_id s.pending) s refl) (refl, refl)
  on_frame_twice (call_error e) s =
      rw (error-handled e (lookup e.message_id s.pending) s refl) (refl, refl)
