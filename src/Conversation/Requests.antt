-- ===== src/Conversation/Requests.antt =====
-- Requests with distinct ids, and what their sending leaves behind.
use ocppwo.Common.{
  ◌≡◌, refl, ap, ◌∙◌, false, Option, none, some, List, [], ◌∷◌, String, str_eq, eq_iff,
  if◌then◌else◌, arith, All, lookup, emplace,
}
use ocppwo.Json.{JsonLib}
use ocppwo.Ocpp.Calls.{create_call}
use ocppwo.Ocpp.Frames.{to_json_call}
use ocppwo.Router.Once.{DumpParses}
use ocppwo.Session.{Session, Pending, user}
use ocppwo.Session.Calls.{send_call, store, start_timer, request_of}
use ocppwo.Conversation.{Request, send_all, transmitted}

-- No two requests share an id.
abbrev pub HaveDistinctIds : List Request → Type 0
HaveDistinctIds [] = Unit
HaveDistinctIds (q ∷ qs) = All (λ r. str_eq q.id r.id ≡ false) qs × HaveDistinctIds qs

-- No request has this id.
abbrev pub IsForeign : String → List Request → Type 0
IsForeign k qs = All (λ q. str_eq q.id k ≡ false) qs

-- The entry that a request has in the session's table.
abbrev pub entry : Request → Pending
entry q = record { resolve = some (user q.callback); request = request_of q.payload }

abbrev pub IsPending : List (String × Pending) → Request → Type 0
IsPending m q = lookup q.id m ≡ some (entry q)

pub lookup-emplace :
    (k j : String) (p : Pending) (m : List (String × Pending))
    → lookup k m ≡ none
    → lookup j (emplace k p m) ≡ (if str_eq k j then some p else lookup j m)
unfolding emplace lookup
lookup-emplace k j p m e = rw (emplace, e) refl

still_unused :
    (q : Request) (qs : List Request) (m : List (String × Pending))
    → lookup q.id m ≡ none
    → All (λ r. str_eq q.id r.id ≡ false) qs
    → All (λ r. lookup r.id m ≡ none) qs
    → All (λ r. lookup r.id (emplace q.id (entry q) m) ≡ none) qs
still_unused q [] m e d u = tt
still_unused q (r ∷ qs) m e d u =
    (lookup-emplace q.id r.id (entry q) m e ∙ rw d.0 u.0, still_unused q qs m e d.1 u.1)

-- What is in the table once these requests were sent.
abbrev pub enlisted : List Request → List (String × Pending) → List (String × Pending)
enlisted [] m = m
enlisted (q ∷ qs) m = enlisted qs (emplace q.id (entry q) m)

pub enlisted-foreign :
    (k : String) (qs : List Request) (m : List (String × Pending))
    → IsForeign k qs
    → All (λ q. lookup q.id m ≡ none) qs
    → HaveDistinctIds qs
    → lookup k (enlisted qs m) ≡ lookup k m
enlisted-foreign k [] m f u d = refl
enlisted-foreign k (q ∷ qs) m f u d =
    enlisted-foreign k qs (emplace q.id (entry q) m) f.1 (still_unused q qs m u.0 d.0 u.1) d.1
    ∙ lookup-emplace q.id k (entry q) m u.0
    ∙ rw f.0 refl

pub mirrored :
    (k : String) (qs : List Request) → All (λ r. str_eq k r.id ≡ false) qs → IsForeign k qs
mirrored k [] d = tt
mirrored k (q ∷ qs) d = (ground (arith, d.0, eq_iff k q.id, eq_iff q.id k), mirrored k qs d.1)

pub enlisted-IsPending :
    (qs : List Request) (m : List (String × Pending))
    → All (λ q. lookup q.id m ≡ none) qs
    → HaveDistinctIds qs
    → All (IsPending (enlisted qs m)) qs
enlisted-IsPending [] m u d = tt
enlisted-IsPending (q ∷ qs) m u d =
    let u' = still_unused q qs m u.0 d.0 u.1 in
    (
      enlisted-foreign q.id qs (emplace q.id (entry q) m) (mirrored q.id qs d.0) u' d.1
          ∙ lookup-emplace q.id q.id (entry q) m u.0
          ∙ ground (arith, eq_iff q.id q.id),
      enlisted-IsPending qs (emplace q.id (entry q) m) u' d.1,
    )

module _ (J : JsonLib) (total : DumpParses J) where
  open J use {Json}

  abbrev pub frame_of : Request → String
  frame_of q = (total (to_json_call J (create_call J q.id q.payload))).0

  abbrev pub frames_of : List Request → List String
  frames_of [] = []
  frames_of (q ∷ qs) = frame_of q ∷ frames_of qs

  send_one_when :
      (q : Request) (s : Session) (o : Option Pending)
      → lookup q.id s.pending ≡ o
      → let o = send_call J q.id q.payload (some (user q.callback)) 10 s in
        (o.session ≡ record s { pending = emplace q.id (entry q) s.pending })
        × (transmitted o.effects ≡ frame_of q ∷ [])
  unfolding send_call store start_timer
  send_one_when q s none e =
      rw ((total (to_json_call J (create_call J q.id q.payload))).1, e) (refl, refl)
  send_one_when q s (some p) e =
      rw ((total (to_json_call J (create_call J q.id q.payload))).1, e) (refl, refl)

  pub send_all_lem :
      (qs : List Request) (s : Session)
      → ((send_all J qs s).0.pending ≡ enlisted qs s.pending) × ((send_all J qs s).1 ≡ frames_of qs)
  unfolding send_all
  send_all_lem [] s = (refl, refl)
  send_all_lem (q ∷ qs) s =
      let (same, frame) = send_one_when q s (lookup q.id s.pending) refl in
      rw (same, frame)
        (
          (send_all_lem qs (record s { pending = emplace q.id (entry q) s.pending })).0,
          ap (λ fs. frame_of q ∷ fs)
              (send_all_lem qs (record s { pending = emplace q.id (entry q) s.pending })).1,
        )
