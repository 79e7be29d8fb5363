-- ===== src/TestServer/Replies.antt =====
-- Replies held back and sent later, and calls that get none.
use ocppwo.Common.{
  ◌≡◌, ◌≢◌, refl, sym, ap, subst, ◌⊎◌, inl, inr, Bool, true, false, ◌&&◌, Option, none, some, List,
  [], ◌∷◌, ◌++◌, String, str_eq, eq_iff, if◌then◌else◌, ℕ, arith, All, ok, ◌>>=◌, lookup, insert,
}
use ocppwo.Json.{JsonLib}
use ocppwo.Metrics.Ops.{server_replies_sent_total_increment}
use ocppwo.Ocpp.{Call, call}
use ocppwo.Ocpp.Frames.{parse_frame}
use ocppwo.Router.Dispatch.{register_handler}
use ocppwo.TestServer.{Frame, StoredReply, send, TestServer}
use ocppwo.TestServer.Ops.{take_stored, send_stored_reply_for, reply_stored}
use ocppwo.TestServer.Messages.{
  take_reply, keep_for, keep, last, test_router, on_message, process, note, note_call, to_router,
}

-- The first reply with this id, with those before and after it.
abbrev IsFirst : String → List StoredReply → StoredReply → List StoredReply → Type 0
IsFirst id rs r rest =
    (before : List StoredReply) × (after : List StoredReply) × (rs ≡ before ++ r ∷ after)
    × (rest ≡ before ++ after)
    × All (λ q. q.message_id ≢ id) before
    × (r.message_id ≡ id)

abbrev IsTaken : String → List StoredReply → Option (StoredReply × List StoredReply) → Type 0
IsTaken id rs none = All (λ q. q.message_id ≢ id) rs
IsTaken id rs (some (r, rest)) = IsFirst id rs r rest

take_stored_lem : (id : String) (rs : List StoredReply) → IsTaken id rs (take_stored id rs)
unfolding take_stored
take_stored_lem id [] = tt
take_stored_lem id (r ∷ rs) =
    go (str_eq r.message_id id) refl (take_stored id rs) (take_stored_lem id rs)
  where
    other : str_eq r.message_id id ≡ false → r.message_id ≢ id
    other h q = cc (h, (eq_iff r.message_id id).1 q)

    go :
        (b : Bool)
        → str_eq r.message_id id ≡ b
        → (o : Option (StoredReply × List StoredReply)) → IsTaken id rs o
        → IsTaken id (r ∷ rs) (
            if b
            then some (r, rs)
            else elim o [ none ↦ none | some (found, rest) ↦ some (found, r ∷ rest) ])
    go true h o k = ([], rs, refl, refl, tt, (eq_iff r.message_id id).0 h)
    go false h none k = (other h, k)
    go false h (some (found, rest)) (before, after, e, f, a, i) =
        (r ∷ before, after, ap (λ l. r ∷ l) e, ap (λ l. r ∷ l) f, (other h, a), i)

-- The state after a stored reply was sent to this session, with the replies left.
abbrev pub sent_to : ℕ → StoredReply → List StoredReply → TestServer → TestServer
sent_to n r rest s = record s {
  stored_replies = rest;
  asked = s.asked ++ send n r.reply_text ∷ [];
  metrics = server_replies_sent_total_increment s.metrics;
}

-- Nothing was stored under the id and nothing changed, or its first reply was sent and removed.
abbrev pub SendsFirst : String → ℕ → TestServer → Bool × TestServer → Type 0
SendsFirst id n s p =
    ((p ≡ (false, s)) × All (λ q. q.message_id ≢ id) s.stored_replies)
    ⊎ ((r : StoredReply) × (rest : List StoredReply) × IsFirst id s.stored_replies r rest
        × (p ≡ (true, sent_to n r rest s)))

-- With a session, `send_stored_reply_for` answers false and changes nothing if no stored reply has
-- the id; else it answers true, sends the first that has it to the session, counts it and removes
-- that one only.
pub send_stored_reply_for_lem :
    (id : String) (n : ℕ) (s : TestServer)
    → s.session ≡ some n
    → SendsFirst id n s (send_stored_reply_for id s)
unfolding send_stored_reply_for
send_stored_reply_for_lem id n s e =
    subst
      (λ (o : Option ℕ). SendsFirst id n s (elim o [
        | none ↦ (false, s)
        | some k ↦ reply_stored k (take_stored id s.stored_replies) s
      ]))
      (sym e) (go (take_stored id s.stored_replies) (take_stored_lem id s.stored_replies))
  where
    go :
        (o : Option (StoredReply × List StoredReply))
        → IsTaken id s.stored_replies o
        → SendsFirst id n s (reply_stored n o s)
    go none k = inl (refl, k)
    go (some (r, rest)) k = inr (r, rest, k, refl)

-- A reply at the end is the one that is found, if none before it has its id.
take_stored-snoc :
    (r : StoredReply) (rs : List StoredReply)
    → All (λ q. q.message_id ≢ r.message_id) rs
    → take_stored r.message_id (rs ++ r ∷ []) ≡ some (r, rs)
unfolding take_stored
take_stored-snoc r [] a = ground (arith, eq_iff r.message_id r.message_id)
take_stored-snoc r (q ∷ rs) a =
    rw (take_stored-snoc r rs a.1) (ground (arith, eq_iff q.message_id r.message_id, a.0))

module _ (J : JsonLib) where
  open J use {Json, parse}

  -- The state in which the reply to this call is held back.
  abbrev pub held_back : String → Call Json → TestServer → TestServer
  held_back reply c s = record s {
    received_call_ids = s.received_call_ids ++ c.message_id ∷ [];
    stored_replies =
        s.stored_replies ++ record { message_id = c.message_id; reply_text = reply } ∷ [];
  }

  take_reply-held_back :
      (reply : String) (c : Call Json) (f : Frame) (s : TestServer)
      → s.manual_replies ≡ true
      → last s.received ≡ some f
      → (parse f.text >>= parse_frame J) ≡ ok (call c)
      → (take_reply J reply s).1 ≡ held_back reply c s
  unfolding take_reply keep_for keep
  take_reply-held_back reply c f s m l p = ground arith

  -- While replies are held back, the reply to a call that was the last frame received is not sent;
  -- if no other is stored under the call's id, asking for it by that id sends it to the session of
  -- the moment, and leaves the stored replies as they were before.
  pub take_reply-send_stored_reply_for :
      (reply : String) (c : Call Json) (f : Frame) (n : ℕ) (s : TestServer)
      → s.manual_replies ≡ true
      → s.session ≡ some n
      → last s.received ≡ some f
      → (parse f.text >>= parse_frame J) ≡ ok (call c)
      → All (λ q. q.message_id ≢ c.message_id) s.stored_replies
      → let held = (take_reply J reply s).1 in
        let asked = send_stored_reply_for c.message_id held in
        (held.asked ≡ s.asked)
        × (asked.0 ≡ true)
        × (asked.1.asked ≡ s.asked ++ send n reply ∷ [])
        × (asked.1.stored_replies ≡ s.stored_replies)
  unfolding send_stored_reply_for
  take_reply-send_stored_reply_for reply c f n s m e l p a =
      rw (take_reply-held_back reply c f s m l p) (
        ground (
          arith,
          take_stored-snoc (record { message_id = c.message_id; reply_text = reply })
              s.stored_replies a,
        ))

  -- An Authorize call that is not cut off by the close policy is recorded and gets no reply, sent
  -- or held back, although the router has a handler for it.
  pub on_message-authorize :
      (n : ℕ) (text : String) (now : ℕ) (s : TestServer) (c : Call Json)
      → s.first_message_seen ≡ false
      → (parse text >>= parse_frame J) ≡ ok (call c)
      → c.action ≡ "Authorize"
      → let (r, t) = on_message J n text now s in
        (r ≡ ok tt)
        × (t.received ≡ s.received ++ record { text = text; t = now } ∷ [])
        × (t.asked ≡ s.asked)
        × (t.stored_replies ≡ s.stored_replies)
        × (lookup c.action (test_router J s.heartbeat_interval).table ≢ none)
  unfolding on_message process note note_call to_router test_router register_handler lookup insert
  on_message-authorize n text now s c u p e =
      let cut : (s.close_policy.close_after_first_message && s.first_message_seen) ≡ false =
        ground (arith, u) in
      rw (cut, p, e) (refl, refl, refl, refl, cc)
