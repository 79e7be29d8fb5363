-- ===== src/TestServer/Outline.antt =====
-- What the router cannot change: everything but the replies, the requests made and the metrics.
use ocppwo.Common.{
  ◌≡◌, refl, ◌∙◌, Bool, true, false, Option, none, some, [], String, Result, ok, throws, Expected,
  ℤ, if◌then◌else◌, ℕ, ◌>>=◌,
}
use ocppwo.Json.{JsonLib}
use ocppwo.Metrics.{no_metrics}
use ocppwo.Ocpp.{OcppFrame, call, call_result, call_error}
use ocppwo.Ocpp.Frames.{parse_frame}
use ocppwo.Router.{Router}
use ocppwo.Router.Dispatch.{register_handler}
use ocppwo.Router.Keeps.{
  Preorder, Keeps, TableKeeps, register_handler-TableKeeps, handle_incoming-Keeps,
}
use ocppwo.TestServer.{Frame, TestServer}
use ocppwo.TestServer.Messages.{take_reply, send_now, keep, keep_for, last, test_router, to_router}

abbrev pub outline : TestServer → TestServer
outline s = record s {
  received_call_ids = [];
  stored_replies = [];
  metrics = no_metrics;
  asked = [];
}

abbrev pub SameOutline : TestServer → TestServer → Type 0
SameOutline s t = outline t ≡ outline s

SameOutline-order : Preorder SameOutline
SameOutline-order = record { same = λ s. refl; then_too = λ s t u e e'. e' ∙ e }

module _ (J : JsonLib) where
  open J use {Json, parse}

  keep-SameOutline :
      (r : Result (OcppFrame Json)) (reply : String) (s : TestServer)
      → SameOutline s (keep J r reply s)
  unfolding keep
  keep-SameOutline (ok (call c)) reply s = refl
  keep-SameOutline (ok (call_result c)) reply s = refl
  keep-SameOutline (ok (call_error c)) reply s = refl
  keep-SameOutline (throws what) reply s = refl

  keep_for-SameOutline :
      (o : Option Frame) (reply : String) (s : TestServer) → SameOutline s (keep_for J o reply s)
  unfolding keep_for
  keep_for-SameOutline none reply s = refl
  keep_for-SameOutline (some f) reply s = keep-SameOutline (parse f.text >>= parse_frame J) reply s

  take_reply-SameOutline :
      (reply : String) → Keeps SameOutline SameOutline-order (take_reply J reply)
  unfolding take_reply send_now
  take_reply-SameOutline reply = record { kept = λ s. go s s.manual_replies s.session }
    where
      go :
          (s : TestServer) (manual : Bool) (o : Option ℕ)
          → SameOutline s
              (if manual then keep_for J (last s.received) reply s else send_now J o reply s)
      go s true o = keep_for-SameOutline (last s.received) reply s
      go s false none = refl
      go s false (some n) = refl

  abbrev Ready : Router J TestServer → Type 0
  Ready = TableKeeps SameOutline SameOutline-order J (take_reply J) take_reply-SameOutline

  registered :
      {Req Conf : Type 0} (action : String) (from_json : Json → Result Req) (to_json : Conf → Json)
      (h : Req → Result (Expected Conf)) (r : Router J TestServer)
      → Ready r
      → Ready (register_handler J TestServer action from_json to_json h r)
  registered =
      register_handler-TableKeeps SameOutline SameOutline-order J (take_reply J)
        take_reply-SameOutline

  test_router-Ready : (interval : ℤ) → Ready (test_router J interval)
  unfolding test_router
  test_router-Ready interval =
      registered "HeartBeat" _ _ _ _
        (registered "Authorize" _ _ _ _ (registered "BootNotification" _ _ _ _ tt))

  pub to_router-SameOutline :
      (go_on : Bool) (text : String) (s : TestServer) → SameOutline s (to_router J go_on text s).1
  unfolding to_router
  to_router-SameOutline false text s = refl
  to_router-SameOutline true text s =
      (handle_incoming-Keeps SameOutline SameOutline-order J (take_reply J) take_reply-SameOutline
          (test_router J s.heartbeat_interval) (test_router-Ready s.heartbeat_interval) text).kept
        s
