-- ===== src/Server/Clients.antt =====
-- The clients of `main` do not get in each other's way, as long as no handler throws.
use mathlib.Core.List.{append-nil, append_assoc}
use ocppwo.Common.{
  ℕ, zero, suc, ◌≤◌, ◌≡◌, refl, sym, ap, subst, ◌∙◌, Bool, true, false, Option, none, some, List,
  [], ◌∷◌, ◌++◌, String, Result, ok, throws, length, length-append, get_elem?, ◌==◌, if◌then◌else◌,
  arith, inl, inr, Bool-cases,
}
use ocppwo.Json.{JsonLib}
use ocppwo.Server.Main.{
  Connection, Main, new_connection, socket_accepted, update_at, Happening, Event, accepted,
  happened, connection_step, handle_at, handle, step_after, step, run,
}
use ocppwo.Server.Order.{IsBusy}
use ocppwo.Server.Crash.{running}
use ocppwo.Server.Outgoing.{outgoing, replies_at, connection_step-outgoing}

get_elem?-update_at :
    (i j : ℕ) (f : Connection → Connection) (cs : List Connection) (c : Connection)
    → get_elem? cs j ≡ some c
    → get_elem? (update_at i f cs) j ≡ some (if i == j then f c else c)
get_elem?-update_at i j f [] c e = ground (arith, e)
get_elem?-update_at zero zero f (x ∷ cs) c e = ground (arith, e)
get_elem?-update_at zero (suc j) f (x ∷ cs) c e = ground (arith, e)
get_elem?-update_at (suc i) zero f (x ∷ cs) c e = ground (arith, e)
get_elem?-update_at (suc i) (suc j) f (x ∷ cs) c e =
    ground (arith, get_elem?-update_at i j f cs c e)

get_elem?-snoc :
    (cs : List Connection) (x : Connection) (j : ℕ) (c : Connection)
    → get_elem? cs j ≡ some c
    → get_elem? (cs ++ x ∷ []) j ≡ some c
get_elem?-snoc [] x j c e = ground (arith, e)
get_elem?-snoc (y ∷ cs) x zero c e = e
get_elem?-snoc (y ∷ cs) x (suc j) c e = get_elem?-snoc cs x j c e

module _ (J : JsonLib) where
  abbrev pub reply_at : ℕ → Event → List String
  reply_at j (accepted socket) = []
  reply_at j (happened i h) = if i == j then replies_at J h else []

  abbrev pub replies : ℕ → List Event → List String
  replies j [] = []
  replies j (e ∷ es) = reply_at j e ++ replies j es

  -- Client j's connection, with this outgoing text and a write under way while texts are queued.
  pub record Serves (connections : List Connection) (j : ℕ) (texts : List String) : Type 0 where
    pub connection : Connection
    pub found : get_elem? connections j ≡ some connection
    pub sends : outgoing connection ≡ texts
    pub is_busy : IsBusy connection.line

  other :
      (i j : ℕ) (connections : List Connection) (c : Connection)
      → get_elem? connections i ≡ none
      → get_elem? connections j ≡ some c
      → (i == j) ≡ false
  other zero zero connections c e f = ground (arith, e, f)
  other zero (suc j) connections c e f = ground arith
  other (suc i) zero connections c e f = ground arith
  other (suc i) (suc j) [] c e f = ground (arith, f)
  other (suc i) (suc j) (x ∷ connections) c e f = ground (arith, other i j connections c e f)

  happened-Serves :
      (m : Main) (i j : ℕ) (h : Happening) (texts : List String) (o : Option Connection)
      → get_elem? m.connections i ≡ o
      → Serves m.connections j texts
      → length texts ≤ 1000
      → Serves (handle_at J o i h m).connections j (texts ++ reply_at j (happened i h))
  unfolding handle_at
  happened-Serves m i j h texts none e s l = record {
    connection = s.connection;
    found = s.found;
    sends =
        s.sends ∙ sym (append-nil texts) ∙ rw (other i j m.connections s.connection e s.found) refl;
    is_busy = s.is_busy;
  }
  happened-Serves m i j h texts (some c) e s l = elim (Bool-cases (i == j)) [
    | inl q ↦
        (let (more, busy) =
            connection_step-outgoing J h s.connection s.is_busy
              (subst (λ t. length t ≤ 1000) (sym s.sends) l) in
          record {
            connection = connection_step J h s.connection;
            found =
                get_elem?-update_at i j (connection_step J h) m.connections s.connection s.found
                ∙ rw q refl;
            sends = more ∙ ap (λ t. t ++ replies_at J h) s.sends ∙ rw q refl;
            is_busy = busy;
          })
    | inr q ↦ record {
      connection = s.connection;
      found =
          get_elem?-update_at i j (connection_step J h) m.connections s.connection s.found
          ∙ rw q refl;
      sends = s.sends ∙ sym (append-nil texts) ∙ rw q refl;
      is_busy = s.is_busy;
    }
  ]

  accepted-Serves :
      (m : Main) (socket : Option (Result String)) (j : ℕ) (texts : List String)
      → Serves m.connections j texts
      → Serves (handle J (accepted socket) m).connections j (texts ++ [])
  unfolding handle socket_accepted
  accepted-Serves m socket j texts s = record {
    connection = s.connection;
    found = stays m.accepting socket;
    sends = s.sends ∙ sym (append-nil texts);
    is_busy = s.is_busy;
  }
    where
      stays :
          (b : Bool) (o : Option (Result String))
          → get_elem? (if b then socket_accepted o m else m).connections j ≡ some s.connection
      stays false o = s.found
      stays true none = s.found
      stays true (some (throws what)) = s.found
      stays true (some (ok peer)) =
          get_elem?-snoc m.connections new_connection j s.connection s.found

  handle-Serves :
      (m : Main) (e : Event) (j : ℕ) (texts : List String)
      → Serves m.connections j texts
      → length texts ≤ 1000
      → Serves (handle J e m).connections j (texts ++ reply_at j e)
  unfolding handle
  handle-Serves m (accepted socket) j texts s l = accepted-Serves m socket j texts s
  handle-Serves m (happened i h) j texts s l =
      happened-Serves m i j h texts (get_elem? m.connections i) refl s l

  run-Serves :
      (m : Main) (es : List Event) (j : ℕ) (texts : List String)
      → (run J m es).ended ≡ none
      → Serves m.connections j texts
      → length (texts ++ replies j es) ≤ 1000
      → Serves (run J m es).connections j (texts ++ replies j es)
  unfolding run step step_after
  run-Serves m [] j texts n s l = subst (Serves m.connections j) (sym (append-nil texts)) s
  run-Serves m (e ∷ es) j texts n s l =
      let same : step J m e ≡ handle J e m =
        ap (λ o. step_after J o m e) (running J m (e ∷ es) n) in
      let split = append_assoc texts (reply_at j e) (replies j es) in
      subst (λ k. Serves (run J k es).connections j (texts ++ (reply_at j e ++ replies j es)))
        (sym same)
        (subst (Serves (run J (handle J e m) es).connections j) split (
          run-Serves (handle J e m) es j (texts ++ reply_at j e)
            (ap (λ k. (run J k es).ended) (sym same) ∙ n)
            (handle-Serves m e j texts s
              (omega (arith, l, length-append texts (reply_at j e ++ replies j es))))
            (omega (arith, l, ap length split))))

  -- From any state in which client j is connected, a write for it is under way exactly while texts
  -- are queued, and no text was yet given to Boost for it, waits behind that write or is posted;
  -- through any events after which no exception has ended `main`; if the server's replies to what
  -- client j sent are at most 1000: the texts given to Boost for client j, those in its queue behind
  -- the one that is being written, and those posted for sending are exactly these replies, in the
  -- order in which the texts of client j came, and a write is under way exactly while texts are
  -- queued. What other clients do changes none of it.
  pub run-replies :
      (m : Main) (es : List Event) (j : ℕ)
      → (run J m es).ended ≡ none
      → Serves m.connections j []
      → length (replies j es) ≤ 1000
      → Serves (run J m es).connections j (replies j es)
  run-replies m es j n s l = run-Serves m es j [] n s l
