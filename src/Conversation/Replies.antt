-- ===== src/Conversation/Replies.antt =====
-- The replies that the server posts, and what they do to the session that waits for them.
use ocppwo.Common.{
  ◌≡◌, refl, sym, ap, ◌∙◌, false, none, List, [], ◌∷◌, ◌++◌, String, str_eq, eq_iff, if◌then◌else◌,
  ok, arith, All, lookup, erase, lookup-erase,
}
use mathlib.Core.List.{append_assoc, append-nil}
use ocppwo.Json.{JsonLib, JsonLaws}
use ocppwo.Ocpp.{CallResult, call_result}
use ocppwo.Ocpp.Calls.{create_call}
use ocppwo.Ocpp.Frames.{to_json_frame, to_json_call}
use ocppwo.Ocpp.RoundTrip.{parse_frame-to_json_frame}
use ocppwo.Router.Once.{DumpParses}
use ocppwo.Router.Reply.{Reads}
use ocppwo.Router.Route.{served}
use ocppwo.Server.Answers.{IsComplete, served-result, read_call, on_message-result, server_reads}
use ocppwo.Server.Reads.{reply}
use ocppwo.Session.{Session, Pending, Effect, user}
use ocppwo.Session.Calls.{call_back, react, request_of}
use ocppwo.Session.Frames.{on_message, validate_payload}
use ocppwo.Session.Life.{deliveries}
use ocppwo.Session.Shows.{deliveries-append}
use ocppwo.Conversation.{Request, serve_all, receive_all}
use ocppwo.Conversation.Requests.{
  HaveDistinctIds, IsForeign, IsPending, entry, frame_of, frames_of, mirrored,
}

module _ (J : JsonLib) where
  open J use {Json}

  -- The text reads as the result that the server's handler gave for the request.
  pub record IsReplyFor (q : Request) (text : String) : Type 0 where
    pub result : CallResult Json
    pub gives : served J (List String) q.id q.payload ≡ ok (call_result result)
    pub reads : Reads J (call_result result) text
    pub same_id : result.message_id ≡ q.id
    pub is_valid : validate_payload J (request_of q.payload) result.payload ≡ ok tt

  -- One text per request, in the order of the requests.
  abbrev pub AreReplies : List Request → List String → Type 0
  AreReplies [] [] = Unit
  AreReplies (q ∷ qs) (text ∷ texts) = IsReplyFor q text × AreReplies qs texts
  AreReplies [] (text ∷ texts) = ⊥
  AreReplies (q ∷ qs) [] = ⊥

  -- A call that is answered: it is not pending, and its callback was invoked once, with the result
  -- that the server's handler gave.
  abbrev pub IsSettled : Session × List (Effect Json) → Request → Type 0
  IsSettled (s, effects) q =
      (lookup q.id s.pending ≡ none)
      × ((r : CallResult Json) × (served J (List String) q.id q.payload ≡ ok (call_result r))
          × (deliveries q.id effects ≡ (user q.callback, call_result r) ∷ []))

  module _ ⦃L : JsonLaws J⦄ where
    serve_one :
        (total : DumpParses J) (q : Request) (log : List String)
        → IsComplete q.payload
        → (text : String) × IsReplyFor q text
          × (server_reads J (frame_of J total q) log ≡ (ok tt, log ++ text ∷ []))
    unfolding reply
    serve_one total q log complete =
        let (r, gives, same, tag, valid) = served-result J q.id q.payload complete in
        let (frame, d, e) = total (to_json_call J (create_call J q.id q.payload)) in
        let (text, d', e') = total (to_json_frame J (call_result r)) in
        (
          text,
          record {
            result = r;
            gives = gives;
            reads = rw e' (parse_frame-to_json_frame J (call_result r) tag);
            same_id = same;
            is_valid = valid;
          },
          read_call J q.id q.payload (frame_of J total q) e log ∙ rw (gives, d') refl,
        )

    pub serve_all_lem :
        (total : DumpParses J) (qs : List Request) (log : List String)
        → All (λ q. IsComplete q.payload) qs
        → (texts : List String) × AreReplies qs texts
          × (serve_all J (frames_of J total qs) log ≡ (ok tt, log ++ texts))
    unfolding serve_all
    serve_all_lem total [] log c = ([], tt, ap (λ l. (ok tt, l)) (sym (append-nil log)))
    serve_all_lem total (q ∷ qs) log c =
        let (text, r, e) = serve_one total q log c.0 in
        let (texts, rs, e') = serve_all_lem total qs (log ++ text ∷ []) c.1 in
        (
          text ∷ texts,
          (r, rs),
          rw e (e' ∙ ap (λ l. (ok tt, l)) (append_assoc log (text ∷ []) texts)),
        )

    receive_one :
        (q : Request) (text : String) (s : Session) (r : IsReplyFor q text)
        → IsPending s.pending q
        → ((on_message J text s).session.pending ≡ erase q.id s.pending)
          × ((k : String)
              → deliveries k (on_message J text s).effects
                ≡ (if str_eq q.id k then (user q.callback, call_result r.result) ∷ [] else []))
    unfolding call_back react
    receive_one q text s r found =
        rw (on_message-result J q.id text (entry q) r.result s r.reads r.same_id found r.is_valid)
          (refl, λ k. append-nil _)

    still_pending :
        (q : Request) (qs : List Request) (m : List (String × Pending))
        → All (λ r. str_eq q.id r.id ≡ false) qs
        → All (IsPending m) qs
        → All (IsPending (erase q.id m)) qs
    still_pending q [] m d a = tt
    still_pending q (r ∷ qs) m d a =
        (lookup-erase q.id r.id m ∙ rw d.0 a.0, still_pending q qs m d.1 a.1)

    -- The calls left, once the first was answered, are pending still.
    rest_pending :
        (q : Request) (qs : List Request) (text : String) (s : Session)
        → IsReplyFor q text
        → All (IsPending s.pending) (q ∷ qs)
        → All (λ r. str_eq q.id r.id ≡ false) qs
        → All (IsPending (on_message J text s).session.pending) qs
    rest_pending q qs text s r a d =
        rw ((receive_one q text s r a.0).0) (still_pending q qs s.pending d a.1)

    pub receive_all-foreign :
        (qs : List Request) (texts : List String) (s : Session) (k : String)
        → AreReplies qs texts
        → All (IsPending s.pending) qs
        → HaveDistinctIds qs
        → IsForeign k qs
        → (lookup k (receive_all J texts s).0.pending ≡ lookup k s.pending)
          × (deliveries k (receive_all J texts s).1 ≡ [])
    unfolding receive_all
    receive_all-foreign [] [] s k rs a d f = (refl, refl)
    receive_all-foreign [] (text ∷ texts) s k rs a d f = elim rs [ ]
    receive_all-foreign (q ∷ qs) [] s k rs a d f = elim rs [ ]
    receive_all-foreign (q ∷ qs) (text ∷ texts) s k rs a d f =
        let o = on_message J text s in
        let (kept, told) = receive_one q text s rs.0 a.0 in
        let (e, e') =
          receive_all-foreign qs texts o.session k rs.1 (rest_pending q qs text s rs.0 a d.0) d.1
            f.1 in
        (
          e ∙ ap (lookup k) kept ∙ lookup-erase q.id k s.pending ∙ rw f.0 refl,
          deliveries-append k o.effects (receive_all J texts o.session).1 ∙ rw (told k, f.0) e',
        )

    -- What was told of the later calls is not changed by the reply to another.
    told_later :
        (q : Request) (text : String) (s : Session)
        → IsReplyFor q text
        → IsPending s.pending q
        → (last : Session × List (Effect Json)) (qs : List Request)
        → All (λ r. str_eq q.id r.id ≡ false) qs
        → All (IsSettled last) qs
        → All (IsSettled (last.0, (on_message J text s).effects ++ last.1)) qs
    told_later q text s r found last [] d a = tt
    told_later q text s r found last (p ∷ qs) d ((gone, (g, gives, e)), a) = (
      (
        gone,
        (
          g,
          gives,
          deliveries-append p.id (on_message J text s).effects last.1
              ∙ rw ((receive_one q text s r found).1 p.id, d.0) e,
        ),
      ),
      told_later q text s r found last qs d.1 a,
    )

    pub receive_all-told :
        (qs : List Request) (texts : List String) (s : Session)
        → AreReplies qs texts
        → All (IsPending s.pending) qs
        → HaveDistinctIds qs
        → All (IsSettled (receive_all J texts s)) qs
    unfolding receive_all
    receive_all-told [] [] s rs a d = tt
    receive_all-told [] (text ∷ texts) s rs a d = elim rs [ ]
    receive_all-told (q ∷ qs) [] s rs a d = elim rs [ ]
    receive_all-told (q ∷ qs) (text ∷ texts) s rs a d =
        let o = on_message J text s in
        let (kept, told) = receive_one q text s rs.0 a.0 in
        let left = rest_pending q qs text s rs.0 a d.0 in
        let (e, e') =
          receive_all-foreign qs texts o.session q.id rs.1 left d.1 (mirrored q.id qs d.0) in
        (
          (
            e
                ∙ ap (lookup q.id) kept
                ∙ lookup-erase q.id q.id s.pending
                ∙ ground (arith, eq_iff q.id q.id),
            (
              rs.0.result,
              rs.0.gives,
              deliveries-append q.id o.effects (receive_all J texts o.session).1
                  ∙ rw (told q.id, e') ground (arith, eq_iff q.id q.id),
            ),
          ),
          told_later q text s rs.0 a.0 (receive_all J texts o.session) qs d.0
              (receive_all-told qs texts o.session rs.1 left d.1),
        )
