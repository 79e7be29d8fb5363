-- ===== src/Router.antt =====
-- json_wo/include/router.hpp and json_wo/router.cpp: the request router. A handler is a function
-- that may throw; the send callback acts on a state `S` of the caller's and may throw too.
pub mod Effects
pub mod Dispatch
pub mod Sends
pub mod Keeps
pub mod Once
pub mod Honest
pub mod Sending
pub mod Reply
pub mod Route
pub mod Tests
use ocppwo.Common.{List, String, Result}
use ocppwo.Json.{JsonLib}
use ocppwo.Ocpp.{Call, OcppFrame}
use Effects.{Eff, Send}

module _ (J : JsonLib) (S : Type 0) where
  open J use {Json}

  -- What `handlerMap` holds.
  abbrev pub FrameHandler : Type 0
  FrameHandler = Call Json → Result (OcppFrame Json)

  -- What `table_` holds: it answers through the send callback.
  abbrev pub Invoker : Type 0
  Invoker = String → Json → Send S → Eff S (Unit {0})

  pub record Router : Type 0 where
    pub handler_map : List (String × FrameHandler)
    pub table : List (String × Invoker)
