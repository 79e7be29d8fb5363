-- ===== src/Timers.antt =====
-- The timers of json_wo/client_loop.cpp and json_wo/include/reconnect_glue.hpp: `post_after` gives
-- a token, under which `cancel_after` finds the timer. Boost keeps for each timer the handler of
-- its wait until it runs: once the timer has expired, `cancel` does not change the handler's error
-- code any more.
pub mod Ops
pub mod Runs
pub mod Tests
use ocppwo.Common.{ℕ, List, []}

-- The wait of a timer: under way, or with its handler about to run with success or as aborted.
pub data Wait : Type 0 where
  waiting expired aborted : Wait

pub record Timers : Type 0 where
  pub next_token : ℕ
  -- the tokens in the map `timers`
  pub tokens : List ℕ
  -- the waits whose handlers have not run
  pub waits : List (ℕ × Wait)

abbrev pub no_timers : Timers
no_timers = record { next_token = 1; tokens = []; waits = [] }
