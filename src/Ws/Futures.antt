-- ===== src/Ws/Futures.antt =====
-- `start_future` and `close_future`: promises that are set by callbacks around those of the client.
use ocppwo.Common.{ℕ, zero, suc, Bool, true, false, Option, none, some, List, [], ◌∷◌, ◌++◌, length}
use ocppwo.Ws.{WsClient, Action, call_connected, call_closed}
use ocppwo.Ws.Machine.{Task, close}
use ocppwo.Ws.Lifecycle.{start}

-- A callback of the client: one that its user set, named by a number, or one that first calls the
-- one before it, if any, and then sets a promise to a value unless it was set.
pub data Hook : Type 0 where
  plain : ℕ → Hook
  alone : (promise : ℕ) → Bool → Hook
  after : Hook → (promise : ℕ) → Bool → Hook

-- `if(!done->exchange(true)) p->set_value(b)`
unfoldable pub set_once : ℕ → Bool → List (Option Bool) → List (Option Bool)
set_once i b [] = []
set_once zero b (none ∷ ps) = some b ∷ ps
set_once zero b (some v ∷ ps) = some v ∷ ps
set_once (suc i) b (v ∷ ps) = v ∷ set_once i b ps

-- A callback is called: the promises, and the user's callbacks that it calls.
unfoldable pub call_hook : Hook → List (Option Bool) → List (Option Bool) × List ℕ
unfolding set_once
call_hook (plain n) ps = (ps, n ∷ [])
call_hook (alone p b) ps = (set_once p b ps, [])
call_hook (after h p b) ps = let (qs, called) = call_hook h ps in (set_once p b qs, called)

-- The lambda around the callback that is set, if any.
abbrev pub around : Option Hook → ℕ → Bool → Hook
around none p b = alone p b
around (some h) p b = after h p b

pub record Watched : Type 0 where
  pub client : WsClient Hook
  pub promises : List (Option Bool)
  -- the user's callbacks that were called, oldest first
  pub called : List ℕ

-- WsClient::start_future: the future that it returns is the promise of the number `length`.
unfoldable pub start_future : Watched → Watched × List (Action Hook)
unfolding start
start_future w =
    let p = length w.promises in
    let (c, actions) = start (record w.client {
      on_connected = some (around w.client.on_connected p true);
      on_closed = some (around w.client.on_closed p false);
    }) in
    (record w { client = c; promises = w.promises ++ none ∷ [] }, actions)

-- WsClient::close_future: the close is posted on the strand.
unfoldable pub close_future : Watched → Watched × List Task
close_future w =
    let p = length w.promises in
    (
      record w {
        client = record w.client { on_closed = some (around w.client.on_closed p true) };
        promises = w.promises ++ none ∷ [];
      },
      close ∷ [],
    )

abbrev pub hook_of : Action Hook → Option Hook
hook_of (call_connected h) = some h
hook_of (call_closed h) = some h
hook_of _ = none

unfoldable pub invoke : Option Hook → Watched → Watched
unfolding call_hook
invoke none w = w
invoke (some h) w =
    let (ps, called) = call_hook h w.promises in
    record w { promises = ps; called = w.called ++ called }

-- The calls of callbacks that a handler asks for are made.
unfoldable pub make_calls : List (Action Hook) → Watched → Watched
unfolding invoke
make_calls [] w = w
make_calls (a ∷ rest) w = make_calls rest (invoke (hook_of a) w)

-- A handler of the client runs.
abbrev pub handle : (WsClient Hook → WsClient Hook × List (Action Hook)) → Watched → Watched
handle f w = let (c, actions) = f w.client in make_calls actions (record w { client = c })
