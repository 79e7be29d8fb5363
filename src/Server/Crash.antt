-- ===== src/Server/Crash.antt =====
-- What ends `main`, and that until then it takes new clients and never frees a session.
use mathlib.Core.List.{append-nil}
use ocppwo.Common.{
  ℕ, zero, suc, ◌+◌, ◌≡◌, refl, sym, ap, subst, All, ◌∙◌, true, Option, none, some, List, [], ◌∷◌,
  ◌++◌, String, ok, throws, length, length-append, get_elem?, arith,
}
use ocppwo.Json.{JsonLib, JsonLaws}
use ocppwo.Ocpp.{BootNotification, boot_notification}
use ocppwo.Ocpp.Calls.{create_call}
use ocppwo.Ocpp.Frames.{to_json_call}
use ocppwo.Ocpp.Handlers.{is_incomplete}
use ocppwo.Server.Answers.{server_throws}
use ocppwo.Server.Ownership.{IsLeaked, handle-IsLeaked}
use ocppwo.Server.Main.{
  Connection, Main, new_connection, socket_accepted, update_at, text_came, Event, accepted,
  happened, reads_text, take_text, connection_step, handle_at, handle, step_after, step, run,
}

update_at-same :
    (f : Connection → Connection) (i : ℕ) (cs : List Connection)
    → ((c : Connection) → f c ≡ c)
    → update_at i f cs ≡ cs
update_at-same f i [] h = refl
update_at-same f zero (c ∷ cs) h = ap (λ x. x ∷ cs) (h c)
update_at-same f (suc i) (c ∷ cs) h = ap (λ xs. c ∷ xs) (update_at-same f i cs h)

module _ (J : JsonLib) where
  open J use {parse}

  frozen : (m : Main) (es : List Event) (what : String) → m.ended ≡ some what → run J m es ≡ m
  unfolding run step step_after
  frozen m [] what e = refl
  frozen m (x ∷ es) what e =
      ap (λ n. run J n es) (ap (λ o. step_after J o m x) e) ∙ frozen m es what e

  pub running : (m : Main) (es : List Event) → (run J m es).ended ≡ none → m.ended ≡ none
  running m es n = go m.ended refl
    where
      go : (o : Option String) → m.ended ≡ o → m.ended ≡ none
      go none q = q
      go (some what) q = ap (λ k. k.ended) (sym (frozen m es what q)) ∙ n

  thrown-handle :
      (i : ℕ) (text what : String) (o : Option Connection) (c : Connection) (m : Main)
      → o ≡ some c
      → reads_text J text ≡ (throws what, [])
      → handle_at J o i (text_came text) m ≡ record m { ended = some what }
  unfolding handle_at connection_step
  thrown-handle i text what o c m e q =
      ap (λ p. handle_at J p i (text_came text) m) e
      ∙ ap
          (λ x. record m {
            connections = update_at i (take_text J x) m.connections;
            ended = elim x.0 [ ok u ↦ none | throws w ↦ some w ];
          })
          q
      ∙ ap (λ cs. record m { connections = cs; ended = some what })
          (update_at-same (λ k. record k { posted = k.posted ++ [] }) i m.connections
            (λ k. ap (λ p. record k { posted = p }) (append-nil k.posted)))

  module _ ⦃L : JsonLaws J⦄ where
    -- From any state of `main` that no exception has ended: a text that parses as the call of a boot
    -- notification with an empty field, from any connected client, ends `main` with an exception,
    -- whatever comes after it: nothing more is read, written or accepted for any client.
    pub run-server_throws :
        (m : Main) (i : ℕ) (c : Connection) (id : String) (b : BootNotification) (frame : String)
        (es : List Event)
        → m.ended ≡ none
        → get_elem? m.connections i ≡ some c
        → parse frame ≡ ok (to_json_call J (create_call J id (boot_notification b)))
        → is_incomplete b ≡ true
        → (what : String) × (run J m (happened i (text_came frame) ∷ es)
            ≡ record m { ended = some what })
    unfolding run step step_after handle
    run-server_throws m i c id b frame es n found e h =
        let (what, q) = server_throws J id b frame [] e h in
        let now : step J m (happened i (text_came frame)) ≡ record m { ended = some what } =
          ap (λ o. step_after J o m (happened i (text_came frame))) n
          ∙ thrown-handle i frame what (get_elem? m.connections i) c m found q in
        (what, ap (λ k. run J k es) now ∙ frozen (record m { ended = some what }) es what refl)

  -- The sockets that were accepted.
  abbrev pub taken : List Event → ℕ
  taken [] = 0
  taken (accepted (some (ok peer)) ∷ es) = suc (taken es)
  taken (e ∷ es) = taken es

  taken-cons : (e : Event) (es : List Event) → taken (e ∷ es) ≡ taken (e ∷ []) + taken es
  taken-cons (accepted none) es = omega arith
  taken-cons (accepted (some (ok peer))) es = omega arith
  taken-cons (accepted (some (throws what))) es = omega arith
  taken-cons (happened i h) es = omega arith

  length-update_at :
      (i : ℕ) (f : Connection → Connection) (cs : List Connection)
      → length (update_at i f cs) ≡ length cs
  length-update_at i f [] = refl
  length-update_at zero f (c ∷ cs) = refl
  length-update_at (suc i) f (c ∷ cs) = ap suc (length-update_at i f cs)

  handle-accepting :
      (m : Main) (e : Event)
      → m.accepting ≡ true
      → (handle J e m).ended ≡ none
      → ((handle J e m).accepting ≡ true)
        × (length (handle J e m).connections ≡ length m.connections + taken (e ∷ []))
  unfolding handle socket_accepted handle_at
  handle-accepting m (accepted none) a n = ground (arith, a)
  handle-accepting m (accepted (some (ok peer))) a n =
      rw a (refl, length-append m.connections (new_connection ∷ []))
  handle-accepting m (accepted (some (throws what))) a n = ground (arith, a, n)
  handle-accepting m (happened i h) a n = go (get_elem? m.connections i)
    where
      go :
          (o : Option Connection)
          → ((handle_at J o i h m).accepting ≡ true)
            × (length (handle_at J o i h m).connections ≡ length m.connections + 0)
      go none = (a, omega arith)
      go (some c) = (a, omega (arith, length-update_at i (connection_step J h) m.connections))

  -- From any state in which `main` waits for a client and every session so far is allocated and has
  -- the message callback that `main` sets, and through any events after which no exception has ended
  -- it: it waits for a client again, has one session more for each socket that was accepted, and
  -- still every session is allocated: a session whose handshake or read has failed, which has
  -- nothing under way any more, is not freed, because its own callback captures it.
  pub run-accepting :
      (m : Main) (es : List Event)
      → m.accepting ≡ true
      → All IsLeaked m.connections
      → (run J m es).ended ≡ none
      → ((run J m es).accepting ≡ true)
        × (length (run J m es).connections ≡ length m.connections + taken es)
        × All IsLeaked (run J m es).connections
  unfolding run step step_after
  run-accepting m [] a k n = (a, omega arith, k)
  run-accepting m (e ∷ es) a k n =
      let same : step J m e ≡ handle J e m = ap (λ o. step_after J o m e) (running m (e ∷ es) n) in
      let n' : (run J (handle J e m) es).ended ≡ none =
        ap (λ k. (run J k es).ended) (sym same) ∙ n in
      let (a', grown) = handle-accepting m e a (running (handle J e m) es n') in
      let (last, more, leaked) = run-accepting (handle J e m) es a' (handle-IsLeaked J m e k) n' in
      (
        ap (λ k. (run J k es).accepting) same ∙ last,
        ap (λ k. length (run J k es).connections) same
            ∙ omega (arith, grown, more, taken-cons e es),
        subst (λ k. All IsLeaked (run J k es).connections) (sym same) leaked,
      )
