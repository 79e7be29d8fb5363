-- ===== src/Server/Outgoing.antt =====
-- What one connection of `main` sends, whatever happens to it.
use mathlib.Core.List.{append-nil, append_assoc}
use ocppwo.Common.{
  ℕ, suc, ◌≤◌, ◌+◌, ◌≡◌, refl, sym, ap, subst, Result, ok, throws, ◌∙◌, true, false, List, [], ◌∷◌,
  ◌++◌, String, length, length-append, ltb, arith,
}
use ocppwo.Json.{JsonLib}
use ocppwo.Server.Main.{
  Connection, next_send, run_send, Happening, handshake_ended, text_came, send_ran, write_completed,
  read_failed, reads_text, take_text, connection_step,
}
use ocppwo.Server.Order.{
  IsBusy, outbound, step-outbound, send_runs, write_completes, step as line_step,
}
use ocppwo.Server.Reads.{accept_done}
use ocppwo.Server.Writes.{pop_front}

-- What was given to Boost or waits to be given, in order.
abbrev pub outgoing : Connection → List String
outgoing c = outbound c.line ++ c.posted

module _ (J : JsonLib) where
  -- What the server replies to what comes from client j.
  abbrev pub replies_at : Happening → List String
  replies_at (text_came text) = (reads_text J text).1
  replies_at _ = []

  front_below :
      (q rest : List String) (n : ℕ)
      → length (pop_front q) + suc n ≤ 1000
      → ltb 1000 (length q) ≡ false
  front_below [] rest n h = ground arith
  front_below (x ∷ q) rest n h = ground (arith, h)

  run_send-outgoing :
      (posted : List String) (c : Connection)
      → c.posted ≡ posted
      → IsBusy c.line
      → length (outgoing c) ≤ 1000
      → (outgoing (run_send posted c) ≡ outgoing c) × IsBusy (run_send posted c).line
  unfolding run_send line_step
  run_send-outgoing [] c e b l = (refl, b)
  run_send-outgoing (text ∷ rest) c e b l =
      let (now, busy) = step-outbound c.line (send_runs text) b in
      let room : ltb 1000 (length c.line.session.write_queue) ≡ false =
        front_below c.line.session.write_queue rest (length rest) (
          omega (
            arith,
            l,
            ap length e,
            length-append (outbound c.line) c.posted,
            length-append c.line.started (pop_front c.line.session.write_queue),
          )) in
      (
        ap (λ t. t ++ rest) now
            ∙ rw room (
                append_assoc (outbound c.line) (text ∷ []) rest
                ∙ ap (λ t. outbound c.line ++ t) (sym e)),
        busy,
      )

  take_text-posted :
      (res : Result (Unit {0}) × List String) (c : Connection)
      → ((take_text J res c).line ≡ c.line) × ((take_text J res c).posted ≡ c.posted ++ res.1)
  take_text-posted (ok u, texts) c = (refl, refl)
  take_text-posted (throws what, texts) c = (refl, refl)

  pub connection_step-outgoing :
      (h : Happening) (c : Connection)
      → IsBusy c.line
      → length (outgoing c) ≤ 1000
      → (outgoing (connection_step J h c) ≡ outgoing c ++ replies_at h)
        × IsBusy (connection_step J h c).line
  unfolding connection_step next_send accept_done line_step
  connection_step-outgoing (handshake_ended true) c b l = (sym (append-nil _), b)
  connection_step-outgoing (handshake_ended false) c b l = (sym (append-nil _), b)
  connection_step-outgoing (text_came text) c b l =
      let (line_kept, more) = take_text-posted (reads_text J text) c in
      (
        ap (λ k. outbound k ++ (take_text J (reads_text J text) c).posted) line_kept
            ∙ ap (λ t. outbound c.line ++ t) more
            ∙ sym (append_assoc (outbound c.line) c.posted (reads_text J text).1),
        subst IsBusy (sym line_kept) b,
      )
  connection_step-outgoing send_ran c b l =
      let (same, busy) = run_send-outgoing c.posted c refl b l in (same ∙ sym (append-nil _), busy)
  connection_step-outgoing write_completed c b l =
      let (now, busy) = step-outbound c.line write_completes b in
      (ap (λ t. t ++ c.posted) (now ∙ append-nil _) ∙ sym (append-nil _), busy)
  connection_step-outgoing read_failed c b l = (sym (append-nil _), b)
