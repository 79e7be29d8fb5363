-- ===== src/Server/Order.antt =====
-- The order in which the server's texts are written.
use mathlib.Core.List.{append-nil, append_assoc}
use ocppwo.Common.{
  ℕ, zero, suc, ◌≡◌, refl, sym, ◌∙◌, ap, Bool, true, false, not, List, [], ◌∷◌, ◌++◌, String,
  length, ltb, if◌then◌else◌, arith,
}
use ocppwo.Server.{WsServerSession, Action, write}
use ocppwo.Server.Writes.{send_task, write_done, do_write, pop_front}

-- The session, and the texts whose async_write was started, oldest first.
pub record Line (K : Type 0) : Type 0 where
  pub session : WsServerSession K
  pub started : List String

-- A posted send runs, or the write that is under way completes.
pub data Event : Type 0 where
  send_runs : String → Event
  write_completes : Event

abbrev pub is_idle : List String → Bool
is_idle [] = true
is_idle (text ∷ rest) = false

abbrev pub completions : ℕ → List Event
completions zero = []
completions (suc n) = write_completes ∷ completions n

module _ {K : Type 0} where
  written : List (Action K) → List String
  written [] = []
  written (write text ∷ rest) = text ∷ written rest
  written (other ∷ rest) = written rest

  abbrev after : WsServerSession K × List (Action K) → Line K → Line K
  after (s, actions) l = record { session = s; started = l.started ++ written actions }

  unfoldable pub step : Line K → Event → Line K
  unfolding written
  step l (send_runs text) = after (send_task text l.session) l
  step l write_completes = if l.session.write_in_progress then after (write_done l.session) l else l

  unfoldable pub run : Line K → List Event → Line K
  run l [] = l
  run l (e ∷ es) = run (step l e) es

  -- A send is dropped while more than 1000 texts are queued.
  abbrev pub accepted_at : Line K → Event → List String
  accepted_at l (send_runs text) = if ltb 1000 (length l.session.write_queue) then [] else text ∷ []
  accepted_at l write_completes = []

  unfoldable pub accepted : Line K → List Event → List String
  accepted l [] = []
  accepted l (e ∷ es) = accepted_at l e ++ accepted (step l e) es

  -- A write is under way exactly while texts are queued.
  abbrev pub IsBusy : Line K → Type 0
  IsBusy l = l.session.write_in_progress ≡ not (is_idle l.session.write_queue)

  -- What was given to Boost, and then what waits behind the text that is being written.
  abbrev pub outbound : Line K → List String
  outbound l = l.started ++ pop_front l.session.write_queue

  pub step-outbound :
      (l : Line K) (e : Event)
      → IsBusy l
      → (outbound (step l e) ≡ outbound l ++ accepted_at l e) × IsBusy (step l e)
  unfolding step send_task write_done do_write
  step-outbound l (send_runs text) b = go l.session.write_queue refl
    where
      go :
          (q : List String)
          → l.session.write_queue ≡ q
          → (outbound (step l (send_runs text)) ≡ outbound l ++ accepted_at l (send_runs text))
            × IsBusy (step l (send_runs text))
      go [] e = ground (
        arith,
        append-nil (l.started ++ text ∷ []),
        append-nil l.started,
        append-nil (l.started ++ []),
      )
      go (x ∷ q) e = ground (
        arith,
        append_assoc l.started q (text ∷ []),
        append-nil (l.started ++ q),
        append-nil l.started,
      )
  step-outbound l write_completes b = go l.session.write_queue refl
    where
      go :
          (q : List String)
          → l.session.write_queue ≡ q
          → (outbound (step l write_completes) ≡ outbound l ++ []) × IsBusy (step l write_completes)
      go [] e = ground (arith, append-nil (outbound l))
      go (x ∷ []) e = ground (arith, append-nil (outbound l))
      go (x ∷ y ∷ q) e = ground (arith, append_assoc l.started (y ∷ []) q, append-nil (outbound l))

  -- From any state in which a write is under way exactly while texts are queued, the texts given to
  -- Boost and those that wait behind the current one are the accepted texts in their order.
  pub run-written :
      (l : Line K) (es : List Event)
      → IsBusy l
      → (outbound (run l es) ≡ outbound l ++ accepted l es) × IsBusy (run l es)
  unfolding run accepted
  run-written l [] b = (sym (append-nil _), b)
  run-written l (e ∷ es) b =
      let (now, busy) = step-outbound l e b in
      let (later, last) = run-written (step l e) es busy in
      (
        later
            ∙ ap (λ t. t ++ accepted (step l e) es) now
            ∙ append_assoc (outbound l) (accepted_at l e) (accepted (step l e) es),
        last,
      )

  popped :
      (l : Line K)
      → IsBusy l
      → (step l write_completes).session.write_queue ≡ pop_front l.session.write_queue
  unfolding step write_done do_write
  popped l b = go l.session.write_queue refl
    where
      go :
          (q : List String)
          → l.session.write_queue ≡ q
          → (step l write_completes).session.write_queue ≡ pop_front l.session.write_queue
      go [] e = ground arith
      go (x ∷ []) e = ground arith
      go (x ∷ y ∷ q) e = ground arith

  emptied :
      (n : ℕ) (l : Line K)
      → IsBusy l
      → length l.session.write_queue ≡ n
      → ((run l (completions n)).session.write_queue ≡ []) × (accepted l (completions n) ≡ [])
  unfolding run accepted
  emptied zero l b e = (nothing l.session.write_queue e, refl)
    where
      nothing : (q : List String) → length q ≡ 0 → q ≡ []
      nothing [] e = refl
      nothing (x ∷ q) e = absurd (omega (arith, e))
  emptied (suc n) l b e =
      emptied n (step l write_completes) (step-outbound l write_completes b).1
        (ap length (popped l b) ∙ shorter l.session.write_queue e)
    where
      shorter : (q : List String) → length q ≡ suc n → length (pop_front q) ≡ n
      shorter [] e = absurd (omega (arith, e))
      shorter (x ∷ q) e = omega (arith, e)

  -- From any state in which a write is under way exactly while texts are queued, as many
  -- completions as texts are queued empty the queue, and then all that was outbound was given to
  -- Boost.
  pub run-drained :
      (l : Line K)
      → IsBusy l
      → let last = run l (completions (length l.session.write_queue)) in
        (last.session.write_queue ≡ []) × (last.started ≡ outbound l)
  run-drained l b =
      let (empty, none_new) = emptied (length l.session.write_queue) l b refl in
      let (order, busy) = run-written l (completions (length l.session.write_queue)) b in
      let last = run l (completions (length l.session.write_queue)) in
      (
        empty,
        sym (append-nil last.started)
            ∙ ap (λ q. last.started ++ pop_front q) (sym empty)
            ∙ order
            ∙ ap (λ t. outbound l ++ t) none_new
            ∙ append-nil (outbound l),
      )
