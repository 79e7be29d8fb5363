-- ===== src/TestServer/Accepts.antt =====
-- What the accept handler records of each client.
use mathlib.Core.List.{append-nil, append_assoc}
use ocppwo.Common.{
  ◌≡◌, refl, sym, ap, ◌∙◌, inl, inr, Bool-cases, true, false, ◌&&◌, some, List, [], ◌∷◌, ◌++◌,
  String, ◌==◌, if◌then◌else◌, ℕ, zero, suc, ◌+◌, ◌%◌, ◌^◌, ◌≤◌, arith, get_elem?,
}
use ocppwo.Json.{JsonLib}
use ocppwo.Metrics.{Metrics}
use ocppwo.Metrics.Ops.{server_frames_received_total_increment}
use ocppwo.TestServer.{EventType, connect, reconnect, disconnect, TestServer, new_test_server}
use ocppwo.TestServer.Ops.{
  record_event, arm_close_timer, clear_connection, count_connect, make_session, accept_done,
  session_opened, session_closed, timer_fires, stop, set_boot_conf, set_close_policy, on_event,
  enable_manual_replies, send_stored_reply_for,
}
use ocppwo.TestServer.Messages.{process, on_message}
use ocppwo.TestServer.Telemetry.{
  Records, process-Records, note_call-Adds, accept_types, accept_types-snoc,
}
use ocppwo.TestServer.Runs.{
  Input, client_accepted, opened, message, closed, timer_fired, stopped, boot_conf_set, policy_set,
  observer_set, manual_set, reply_asked, step, run,
}

-- How many clients were accepted.
abbrev pub accepted : List Input → ℕ
accepted [] = 0
accepted (client_accepted false now ∷ is) = suc (accepted is)
accepted (_ ∷ is) = accepted is

-- What is recorded of this many clients, the count of earlier ones being the first number.
abbrev labels : ℕ → ℕ → List EventType
labels i zero = []
labels i (suc k) = (if i == 1 then connect else reconnect) ∷ labels ((i + 1) % 2 ^ 32) k

module _ (J : JsonLib) where
  -- No client was counted or recorded.
  abbrev IsSteady : TestServer → TestServer → Type 0
  IsSteady s t =
      (t.connect_count ≡ s.connect_count) × (accept_types t.events ≡ accept_types s.events)

  process-IsSteady :
      (text : String) (now : ℕ) (s : TestServer) → IsSteady s (process J text now s).1
  process-IsSteady text now s = go (process-Records J text now s)
    where
      go : Records J text now s (process J text now s).1 → IsSteady s (process J text now s).1
      go (inl e) = (ap (λ t. t.connect_count) e, ap (λ t. accept_types t.events) e)
      go (inr (c, p, e)) =
          let adds = note_call-Adds J c text now s in
          (
            ap (λ t. t.connect_count) e ∙ adds.same_count,
            ap (λ t. accept_types t.events) e ∙ adds.same_accepts,
          )

  on_message-IsSteady :
      (n : ℕ) (text : String) (now : ℕ) (s : TestServer) → IsSteady s (on_message J n text now s).1
  unfolding on_message
  on_message-IsSteady n text now s =
      elim (Bool-cases (s.close_policy.close_after_first_message && s.first_message_seen)) [
        | inl e ↦ rw e (refl, refl)
        | inr e ↦ rw e (
            process-IsSteady text now (record s {
              received = s.received ++ record { text = text; t = now } ∷ [];
              metrics = server_frames_received_total_increment s.metrics;
            }))
      ]

  session_closed-IsSteady : (now : ℕ) (s : TestServer) → IsSteady s (session_closed now s)
  unfolding session_closed record_event
  session_closed-IsSteady now s = ground (
    arith,
    accept_types-snoc s.events (record { type = disconnect; ts = now }),
    append-nil (accept_types s.events),
  )

  -- A client that is accepted is counted and recorded.
  accept_done-counts :
      (now : ℕ) (s : TestServer)
      → let t = accept_done false now s in
        (t.connect_count ≡ (s.connect_count + 1) % 2 ^ 32)
        × (accept_types t.events
            ≡ accept_types s.events ++ (if s.connect_count == 1 then connect else reconnect) ∷ [])
  unfolding accept_done arm_close_timer make_session clear_connection count_connect record_event
  accept_done-counts now s = ground (
    arith,
    accept_types-snoc s.events (record { type = connect; ts = now }),
    accept_types-snoc s.events (record { type = reconnect; ts = now }),
  )

  -- The events after a run from a state, as labels of the clients that it accepts.
  abbrev IsLabelled : TestServer → List Input → Type 0
  IsLabelled s is =
      accept_types (run J s is).events
      ≡ accept_types s.events ++ labels s.connect_count (accepted is)

  quiet-IsLabelled :
      (s t : TestServer) (is : List Input)
      → IsSteady s t
      → IsLabelled t is
      → accept_types (run J t is).events
        ≡ accept_types s.events ++ labels s.connect_count (accepted is)
  quiet-IsLabelled s t is (e, f) l = rw (← f, ← e) l

  run-IsLabelled : (s : TestServer) (is : List Input) → IsLabelled s is
  unfolding run step session_opened timer_fires stop set_boot_conf set_close_policy on_event
      enable_manual_replies send_stored_reply_for
  run-IsLabelled s [] = sym (append-nil (accept_types s.events))
  run-IsLabelled s (client_accepted true now ∷ is) =
      run-IsLabelled (step J s (client_accepted true now)) is
  run-IsLabelled s (client_accepted false now ∷ is) =
      let (count, types) = accept_done-counts now s in
      run-IsLabelled (step J s (client_accepted false now)) is
      ∙ rw (count, types) (append_assoc (accept_types s.events) _ _)
  run-IsLabelled s (opened n ∷ is) =
      quiet-IsLabelled s (step J s (opened n)) is (ground arith)
        (run-IsLabelled (step J s (opened n)) is)
  run-IsLabelled s (message n text now ∷ is) =
      quiet-IsLabelled s (step J s (message n text now)) is (on_message-IsSteady n text now s)
        (run-IsLabelled (step J s (message n text now)) is)
  run-IsLabelled s (closed now ∷ is) =
      quiet-IsLabelled s (step J s (closed now)) is (session_closed-IsSteady now s)
        (run-IsLabelled (step J s (closed now)) is)
  run-IsLabelled s (timer_fired n ∷ is) = run-IsLabelled (step J s (timer_fired n)) is
  run-IsLabelled s (stopped ∷ is) =
      quiet-IsLabelled s (step J s stopped) is (ground arith) (run-IsLabelled (step J s stopped) is)
  run-IsLabelled s (boot_conf_set id i ∷ is) = run-IsLabelled (step J s (boot_conf_set id i)) is
  run-IsLabelled s (policy_set p ∷ is) = run-IsLabelled (step J s (policy_set p)) is
  run-IsLabelled s (observer_set ∷ is) = run-IsLabelled (step J s observer_set) is
  run-IsLabelled s (manual_set enable ∷ is) = run-IsLabelled (step J s (manual_set enable)) is
  run-IsLabelled s (reply_asked id ∷ is) =
      quiet-IsLabelled s (step J s (reply_asked id)) is (ground arith)
        (run-IsLabelled (step J s (reply_asked id)) is)

  two_labels :
      (k : ℕ)
      → 2 ≤ k
      → (get_elem? (labels 0 k) 0 ≡ some reconnect) × (get_elem? (labels 0 k) 1 ≡ some connect)
  two_labels zero h = absurd (omega arith)
  two_labels (suc zero) h = absurd (omega arith)
  two_labels (suc (suc k)) h = (refl, refl)

  -- Of the events that a new server records of its clients in a run that accepts two or more, the
  -- first client's is a Reconnect and the second's is a Connect.
  pub run-first_client :
      (metrics : Metrics) (is : List Input)
      → 2 ≤ accepted is
      → let types = accept_types (run J (new_test_server metrics) is).events in
        (get_elem? types 0 ≡ some reconnect) × (get_elem? types 1 ≡ some connect)
  run-first_client metrics is h =
      rw (run-IsLabelled (new_test_server metrics) is) (two_labels (accepted is) h)
