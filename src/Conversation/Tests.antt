-- ===== src/Conversation/Tests.antt =====
-- A conversation of three calls.
use ocppwo.Common.{◌≡◌, refl, true, some, List, [], ◌∷◌, String, ok, All, lookup}
use ocppwo.Json.Coded.{coded_json, coded_laws}
use ocppwo.Metrics.{no_metrics}
use ocppwo.Ocpp.{boot_notification, authorize, heartbeat, heart_beat, authorize_request}
use ocppwo.Session.{Session, user, new_session}
use ocppwo.Session.Life.{deliveries}
use ocppwo.Conversation.{Request, send_all, serve_all, receive_all}
use ocppwo.Conversation.Replies.{IsSettled}
use ocppwo.Conversation.Whole.{calls_answered}

abbrev three_calls : List Request
three_calls =
    record {
      id = "b1";
      payload = boot_notification (record { charge_point_model = "M"; charge_point_vendor = "V" });
      callback = 1;
    }
    ∷ record { id = "a1"; payload = authorize (record { id_tag = "ABC" }); callback = 2 }
    ∷ record { id = "h1"; payload = heartbeat heart_beat; callback = 3 }
    ∷ []

-- Another call waits already.
abbrev waiting : Session
waiting = record (new_session no_metrics true) {
  pending = ("old", record { resolve = some (user 9); request = authorize_request }) ∷ [];
}

calls_answered_example :
    let (sent, frames) = send_all coded_json three_calls waiting in
    (texts : List String) × (serve_all coded_json frames [] ≡ (ok tt, texts))
    × All (IsSettled coded_json (receive_all coded_json texts sent)) three_calls
    × (lookup "old" (receive_all coded_json texts sent).0.pending ≡ lookup "old" waiting.pending)
    × (deliveries "old" (receive_all coded_json texts sent).1 ≡ [])
unfolding lookup
calls_answered_example =
    calls_answered coded_json ⦃L = coded_laws⦄ (λ j. (j, refl, refl)) three_calls waiting [] "old"
      ((refl, (refl, tt)), ((refl, tt), (tt, tt))) (refl, (tt, (tt, tt))) (refl, (refl, (refl, tt)))
      (refl, (refl, (refl, tt)))
