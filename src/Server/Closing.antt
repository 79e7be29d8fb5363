-- ===== src/Server/Closing.antt =====
-- The end of a server's connection: the read under way fails, and a close that was asked for
-- completes.
use ocppwo.Common.{◌≡◌, some, [], ◌∷◌, ◌++◌, arith}
use ocppwo.Server.{WsServerSession, connected, call_closed}
use ocppwo.Server.Reads.{read_failed, close_done}

-- The close callback of a connected session is called once if the close completes before the read
-- fails, but twice if the read fails first, since only the completed close leaves the connected
-- state.
pub read_failed-close_done :
    {K : Type 0} (s : WsServerSession K) (k : K)
    → s.state ≡ connected
    → s.on_closed ≡ some k
    → ((close_done s).1 ++ (read_failed (close_done s).0).1 ≡ call_closed k ∷ [])
      × ((read_failed s).1 ++ (close_done (read_failed s).0).1 ≡ call_closed k ∷ call_closed k ∷ [])
unfolding read_failed close_done
read_failed-close_done s k up set = ground (arith, up, set)
