-- ===== src/Conversation.antt =====
-- A client and a server in conversation: the session of json_wo/include/session.hpp sends calls,
-- the server of json_wo/tcp_server.cpp on json_wo/include/ws_server_session.hpp reads them and posts
-- replies, and the session gets the replies. The transports in between keep the order of texts.
pub mod Requests
pub mod Replies
pub mod Whole
pub mod Tests
use ocppwo.Common.{ℕ, List, [], ◌∷◌, ◌++◌, String, some, Result, ok}
use ocppwo.Json.{JsonLib}
use ocppwo.Ocpp.{OcppPayload}
use ocppwo.Router.Effects.{Eff, lift, ◌>>=◌}
use ocppwo.Server.Answers.{server_reads}
use ocppwo.Session.{Session, user, Effect, transmit}
use ocppwo.Session.Calls.{send_call}
use ocppwo.Session.Frames.{on_message}

-- A call of the user's, whose callback is the one of this number.
pub record Request : Type 0 where
  pub id : String
  pub payload : OcppPayload
  pub callback : ℕ

-- The texts among the effects.
abbrev pub transmitted : {Json : Type 0} → List (Effect Json) → List String
transmitted [] = []
transmitted (transmit line ∷ es) = line ∷ transmitted es
transmitted (_ ∷ es) = transmitted es

module _ (J : JsonLib) where
  open J use {Json}

  -- The session sends all requests, none of which was answered yet.
  unfoldable pub send_all : List Request → Session → Session × List String
  unfolding send_call
  send_all [] s = (s, [])
  send_all (q ∷ qs) s =
      let o = send_call J q.id q.payload (some (user q.callback)) 10 s in
      let (last, frames) = send_all qs o.session in (last, transmitted o.effects ++ frames)

  -- The server reads the frames one after the other.
  unfoldable pub serve_all : List String → Eff (List String) (Unit {0})
  serve_all [] = lift (ok tt)
  serve_all (frame ∷ frames) = server_reads J frame >>= λ u. serve_all frames

  -- The session gets the replies one after the other.
  unfoldable pub receive_all : List String → Session → Session × List (Effect Json)
  unfolding on_message
  receive_all [] s = (s, [])
  receive_all (text ∷ texts) s =
      let o = on_message J text s in
      let (last, effects) = receive_all texts o.session in (last, o.effects ++ effects)
