-- ===== src/TestServer/Beats.antt =====
-- The telemetry over a run: what counts as a heartbeat, and the policy of the first message.
use ocppwo.Common.{
  ◌≡◌, refl, ap, ◌∙◌, inl, inr, Bool, true, false, ◌&&◌, List, [], ◌∷◌, ◌++◌, String, str_eq,
  eq_iff, if◌then◌else◌, ok, ◌>>=◌, ℕ, arith, All, Any, Any-append_left, Any-append_right,
}
use ocppwo.Json.{JsonLib}
use ocppwo.Metrics.{Metrics}
use ocppwo.Metrics.Ops.{server_frames_received_total_increment}
use ocppwo.Ocpp.{Call, call}
use ocppwo.Ocpp.Frames.{parse_frame}
use ocppwo.TestServer.{Frame, TestServer, new_test_server}
use ocppwo.TestServer.Ops.{
  record_event, arm_close_timer, clear_connection, make_session, accept_done, session_opened,
  session_closed, timer_fires, stop, set_boot_conf, set_close_policy, on_event,
  enable_manual_replies, send_stored_reply_for,
}
use ocppwo.TestServer.Messages.{process, on_message, note_call}
use ocppwo.TestServer.Telemetry.{Adds, Records, process-Records, beats_of, note_call-Adds}
use ocppwo.TestServer.Runs.{
  Input, client_accepted, opened, message, closed, timer_fired, stopped, boot_conf_set, policy_set,
  observer_set, manual_set, reply_asked, step, run,
}

All-append : {A : Type 0} (P : A → Type 0) (xs ys : List A) → All P xs → All P ys → All P (xs ++ ys)
All-append P [] ys a b = b
All-append P (x ∷ xs) ys a b = (a.0, All-append P xs ys a.1 b)

All-map :
    {A : Type 0} (P Q : A → Type 0) (xs : List A) → ((x : A) → P x → Q x) → All P xs → All Q xs
All-map P Q [] f a = tt
All-map P Q (x ∷ xs) f a = (f x a.0, All-map P Q xs f a.1)

module _ (J : JsonLib) where
  open J use {Json, parse}

  -- A frame that was received and whose text is a Call of a heartbeat.
  abbrev pub IsHeartbeatOf : List Frame → Frame → Type 0
  IsHeartbeatOf received f =
      Any (λ g. f ≡ g) received
      × ((c : Call Json) × ((parse f.text >>= parse_frame J) ≡ ok (call c))
          × (c.action ≡ "HeartBeat"))

  pub record IsTracked (s : TestServer) : Type 0 where
    pub unseen : s.first_message_seen ≡ false
    pub counted : All (IsHeartbeatOf s.received) s.heartbeats

  kept :
      (s t : TestServer)
      → t.first_message_seen ≡ s.first_message_seen
      → t.received ≡ s.received
      → t.heartbeats ≡ s.heartbeats
      → IsTracked s
      → IsTracked t
  kept s t e f g k = record { unseen = e ∙ k.unseen; counted = rw (f, g) k.counted }

  -- One more frame was received.
  abbrev with_frame : String → ℕ → TestServer → TestServer
  with_frame text now s = record s {
    received = s.received ++ record { text = text; t = now } ∷ [];
    metrics = server_frames_received_total_increment s.metrics;
  }

  longer :
      (text : String) (now : ℕ) (s : TestServer) → IsTracked s → IsTracked (with_frame text now s)
  longer text now s k = record {
    unseen = k.unseen;
    counted =
        All-map (IsHeartbeatOf s.received) (IsHeartbeatOf (with_frame text now s).received)
          s.heartbeats (λ f h. (Any-append_left (λ g. f ≡ g) s.received _ h.0, h.1)) k.counted;
  }

  recorded :
      (c : Call Json) (text : String) (now : ℕ) (s : TestServer)
      → (parse text >>= parse_frame J) ≡ ok (call c)
      → IsTracked (with_frame text now s)
      → IsTracked (note_call J c text now (with_frame text now s)).1
  recorded c text now s e k = record {
    unseen = adds.unseen_still ∙ k.unseen;
    counted =
        rw (adds.same_received, adds.beats)
          (All-append (IsHeartbeatOf (with_frame text now s).received) s.heartbeats _ k.counted
            (new (str_eq c.action "HeartBeat") refl));
  }
    where
      adds :
          Adds
            (beats_of J c text now)
            (with_frame text now s)
            (note_call J c text now (with_frame text now s)).1
      adds = note_call-Adds J c text now (with_frame text now s)

      new :
          (b : Bool)
          → str_eq c.action "HeartBeat" ≡ b
          → All
              (IsHeartbeatOf (with_frame text now s).received)
              (if b then record { text = text; t = now } ∷ [] else [])
      new false h = tt
      new true h = (
        (
          Any-append_right (λ g. record { text = text; t = now } ≡ g) s.received _ (inl refl),
          (c, e, (eq_iff c.action "HeartBeat").0 h),
        ),
        tt,
      )

  process-IsTracked :
      (text : String) (now : ℕ) (s : TestServer)
      → IsTracked s
      → IsTracked (process J text now (with_frame text now s)).1
  process-IsTracked text now s k =
      go (longer text now s k) (process-Records J text now (with_frame text now s))
    where
      go :
          IsTracked (with_frame text now s)
          → Records J text now
              (with_frame text now s)
              (process J text now (with_frame text now s)).1
          → IsTracked (process J text now (with_frame text now s)).1
      go k (inl e) =
          kept _ _ (ap (λ t. t.first_message_seen) e) (ap (λ t. t.received) e)
            (ap (λ t. t.heartbeats) e) k
      go k (inr (c, p, e)) =
          kept _ _ (ap (λ t. t.first_message_seen) e) (ap (λ t. t.received) e)
            (ap (λ t. t.heartbeats) e) (recorded c text now s p k)

  on_message-IsTracked :
      (n : ℕ) (text : String) (now : ℕ) (s : TestServer)
      → IsTracked s
      → IsTracked (on_message J n text now s).1
  unfolding on_message
  on_message-IsTracked n text now s k = rw (unheeded, ◌&&◌) (process-IsTracked text now s k)
    where
      unheeded : (s.close_policy.close_after_first_message && s.first_message_seen) ≡ false
      unheeded = ground (arith, k.unseen)

  accept_done-IsTracked :
      (failed : Bool) (now : ℕ) (s : TestServer)
      → IsTracked s
      → IsTracked (accept_done failed now s)
  unfolding accept_done arm_close_timer make_session clear_connection
  accept_done-IsTracked true now s k = k
  accept_done-IsTracked false now s k = ground arith

  step-IsTracked : (s : TestServer) (i : Input) → IsTracked s → IsTracked (step J s i)
  unfolding step session_opened session_closed timer_fires stop set_boot_conf set_close_policy
      on_event enable_manual_replies record_event send_stored_reply_for
  step-IsTracked s (client_accepted failed now) k = accept_done-IsTracked failed now s k
  step-IsTracked s (opened n) k =
      kept s (step J s (opened n)) (ground arith) (ground arith) (ground arith) k
  step-IsTracked s (message n text now) k = on_message-IsTracked n text now s k
  step-IsTracked s (closed now) k =
      kept s (step J s (closed now)) (ground arith) (ground arith) (ground arith) k
  step-IsTracked s (timer_fired n) k = kept s _ refl refl refl k
  step-IsTracked s stopped k =
      kept s (step J s stopped) (ground arith) (ground arith) (ground arith) k
  step-IsTracked s (boot_conf_set id interval) k = kept s _ refl refl refl k
  step-IsTracked s (policy_set p) k = kept s _ refl refl refl k
  step-IsTracked s observer_set k = kept s _ refl refl refl k
  step-IsTracked s (manual_set enable) k = kept s _ refl refl refl k
  step-IsTracked s (reply_asked id) k =
      kept s (step J s (reply_asked id)) (ground arith) (ground arith) (ground arith) k

  pub run-IsTracked : (s : TestServer) (is : List Input) → IsTracked s → IsTracked (run J s is)
  unfolding run
  run-IsTracked s [] k = k
  run-IsTracked s (i ∷ is) k = run-IsTracked (step J s i) is (step-IsTracked s i k)

  module _ (metrics : Metrics) (is : List Input) where
    abbrev reached : TestServer
    reached = run J (new_test_server metrics) is

    -- Whatever a new server goes through, each frame among its heartbeats was received on the
    -- present connection, and its text parses as a Call whose action is HeartBeat.
    pub run-heartbeats : All (IsHeartbeatOf reached.received) reached.heartbeats
    run-heartbeats =
        (run-IsTracked (new_test_server metrics) is
          (record { unseen = refl; counted = tt })).counted

    -- Whatever a new server goes through and whatever close policy is set, its next message is
    -- recorded and handled: it is not cut off by the policy of the first message.
    pub on_message-process :
        (n : ℕ) (text : String) (now : ℕ)
        → on_message J n text now reached
          ≡ process J text now (record reached {
            received = reached.received ++ record { text = text; t = now } ∷ [];
            metrics = server_frames_received_total_increment reached.metrics;
          })
    unfolding on_message
    on_message-process n text now = rw (unheeded, ◌&&◌) refl
      where
        unheeded :
            (reached.close_policy.close_after_first_message && reached.first_message_seen) ≡ false
        unheeded = ground (
          arith,
          (run-IsTracked (new_test_server metrics) is
              (record { unseen = refl; counted = tt })).unseen,
        )
