-- ===== src/Tcp.antt =====
-- json_wo/include/server.hpp: the server's end of a plain TCP connection, one frame to a line. What
-- it asks of Boost is a list of actions, and an exception that leaves a completion handler is a
-- `throws`: nothing catches it before io_context::run.
pub mod Lines
pub mod Machine
pub mod Order
pub mod Answers
pub mod Tests
use ocppwo.Common.{String}

pub data Action : Type 0 where
  -- async_read_until a newline
  read_line : Action
  -- async_write
  write : String → Action
