-- ===== src/Ws/Promises.antt =====
-- When the futures of the client become ready, and with what.
use mathlib.Core.List.{append-nil}
use ocppwo.Common.{
  ℕ, zero, suc, ◌<◌, ◌≡◌, refl, ap, ◌∙◌, Bool, true, false, Option, none, some, List, [], ◌∷◌, ◌++◌,
  length, get_elem?, arith,
}
use ocppwo.Ws.{connected, Action, resolve, read}
use ocppwo.Ws.Lifecycle.{
  start, notify_connected, resolve_done, connect_done, handshake_done, read_failed,
}
use ocppwo.Ws.Futures.{
  Hook, plain, alone, after, set_once, call_hook, around, Watched, start_future, make_calls, handle,
  hook_of, invoke,
}

-- The promises that a callback sets are among the first `n`.
abbrev pub IsBelow : ℕ → Hook → Type 0
IsBelow n (plain k) = Unit
IsBelow n (alone p b) = p < n
IsBelow n (after h p b) = IsBelow n h × (p < n)

abbrev pub IsBelow? : ℕ → Option Hook → Type 0
IsBelow? n none = Unit
IsBelow? n (some h) = IsBelow n h

length-set_once :
    (i : ℕ) (b : Bool) (ps : List (Option Bool)) → length (set_once i b ps) ≡ length ps
unfolding set_once
length-set_once i b [] = refl
length-set_once zero b (none ∷ ps) = refl
length-set_once zero b (some v ∷ ps) = refl
length-set_once (suc i) b (v ∷ ps) = ap suc (length-set_once i b ps)

-- Setting a promise leaves the others alone.
get-set_once_lt :
    (i p : ℕ) (b : Bool) (ps : List (Option Bool))
    → i < p
    → get_elem? (set_once i b ps) p ≡ get_elem? ps p
unfolding set_once
get-set_once_lt i p b [] h = refl
get-set_once_lt zero zero b (v ∷ ps) h = absurd (omega arith)
get-set_once_lt zero (suc p) b (none ∷ ps) h = refl
get-set_once_lt zero (suc p) b (some v ∷ ps) h = refl
get-set_once_lt (suc i) zero b (v ∷ ps) h = absurd (omega arith)
get-set_once_lt (suc i) (suc p) b (v ∷ ps) h = get-set_once_lt i p b ps (omega arith)

set_once-keeps :
    (i p : ℕ) (b v : Bool) (ps : List (Option Bool))
    → get_elem? ps p ≡ some (some v)
    → get_elem? (set_once i b ps) p ≡ some (some v)
unfolding set_once
set_once-keeps i p b v [] e = e
set_once-keeps zero p b v (some w ∷ ps) e = e
set_once-keeps zero zero b v (none ∷ ps) e = cc
set_once-keeps zero (suc p) b v (none ∷ ps) e = e
set_once-keeps (suc i) zero b v (w ∷ ps) e = e
set_once-keeps (suc i) (suc p) b v (w ∷ ps) e = set_once-keeps i p b v ps e

set_once-sets :
    (p : ℕ) (b : Bool) (ps : List (Option Bool))
    → get_elem? ps p ≡ some none
    → get_elem? (set_once p b ps) p ≡ some (some b)
unfolding set_once
set_once-sets p b [] e = cc
set_once-sets zero b (none ∷ ps) e = refl
set_once-sets zero b (some v ∷ ps) e = cc
set_once-sets (suc p) b (v ∷ ps) e = set_once-sets p b ps e

get-snoc : (ps : List (Option Bool)) → get_elem? (ps ++ none ∷ []) (length ps) ≡ some none
get-snoc [] = refl
get-snoc (v ∷ ps) = get-snoc ps

call_hook-keeps :
    (h : Hook) (p : ℕ) (v : Bool) (ps : List (Option Bool))
    → get_elem? ps p ≡ some (some v)
    → get_elem? (call_hook h ps).0 p ≡ some (some v)
unfolding call_hook
call_hook-keeps (plain n) p v ps e = e
call_hook-keeps (alone q b) p v ps e = set_once-keeps q p b v ps e
call_hook-keeps (after h q b) p v ps e =
    set_once-keeps q p b v (call_hook h ps).0 (call_hook-keeps h p v ps e)

call_hook-below :
    (h : Hook) (p : ℕ) (ps : List (Option Bool))
    → IsBelow p h
    → get_elem? (call_hook h ps).0 p ≡ get_elem? ps p
unfolding call_hook
call_hook-below (plain n) p ps k = refl
call_hook-below (alone q b) p ps k = get-set_once_lt q p b ps k
call_hook-below (after h q b) p ps k =
    get-set_once_lt q p b (call_hook h ps).0 k.1 ∙ call_hook-below h p ps k.0

-- A callback around another sets its own promise, and calls the user's callbacks of the other.
around-sets :
    (o : Option Hook) (p : ℕ) (b : Bool) (ps : List (Option Bool))
    → IsBelow? p o
    → get_elem? ps p ≡ some none
    → get_elem? (call_hook (around o p b) ps).0 p ≡ some (some b)
unfolding call_hook
around-sets none p b ps k e = set_once-sets p b ps e
around-sets (some h) p b ps k e =
    set_once-sets p b (call_hook h ps).0 (call_hook-below h p ps k ∙ e)

-- Which of the user's callbacks are called does not depend on the promises.
call_hook-called : (h : Hook) (ps qs : List (Option Bool)) → (call_hook h ps).1 ≡ (call_hook h qs).1
unfolding call_hook
call_hook-called (plain n) ps qs = refl
call_hook-called (alone p b) ps qs = refl
call_hook-called (after h p b) ps qs = call_hook-called h ps qs

connected-called :
    (o : Option Hook) (w : Watched) (p : ℕ) (b : Bool) (ps : List (Option Bool))
    → w.called ++ (call_hook (around o p b) ps).1
      ≡ (make_calls (notify_connected o ++ read ∷ []) w).called
unfolding make_calls
connected-called none w p b ps = append-nil w.called
connected-called (some h) w p b ps = ap (λ l. w.called ++ l) (call_hook-called h ps w.promises)

-- Whatever callbacks are called, a future that is ready keeps its value.
pub make_calls-keeps :
    (l : List (Action Hook)) (p : ℕ) (v : Bool) (w : Watched)
    → get_elem? w.promises p ≡ some (some v)
    → get_elem? (make_calls l w).promises p ≡ some (some v)
unfolding make_calls
make_calls-keeps [] p v w e = e
make_calls-keeps (a ∷ l) p v w e = make_calls-keeps l p v (invoke (hook_of a) w) (go (hook_of a))
  where
    go : (o : Option Hook) → get_elem? (invoke o w).promises p ≡ some (some v)
    go none = e
    go (some h) = call_hook-keeps h p v w.promises e

-- After `start_future`, on a client whose callbacks set only promises made before: the client is
-- asked to resolve, and the future is not ready. A completed handshake makes it ready with true,
-- calling the user's callbacks that it would have called without the future; a failed handshake
-- makes it ready with false, and so does a failed read of a connected client. Where the resolution
-- or the connection fails, the client stops and the future is still not ready.
pub start_future_lem :
    (w : Watched)
    → IsBelow? (length w.promises) w.client.on_connected
    → IsBelow? (length w.promises) w.client.on_closed
    → let (v, actions) = start_future w in
      let ready = λ (u : Watched). get_elem? u.promises (length w.promises) in
      (actions ≡ resolve ∷ [])
      × (ready v ≡ some none)
      × (ready (handle (handshake_done false) v) ≡ some (some true))
      × ((handle (handshake_done false) v).called ≡ (handle (handshake_done false) w).called)
      × (ready (handle (handshake_done true) v) ≡ some (some false))
      × (ready (handle read_failed (record v { client = record v.client { state = connected } }))
          ≡ some (some false))
      × ((resolve_done true v.client).1 ≡ [])
      × (ready (handle (resolve_done true) v) ≡ some none)
      × ((connect_done true v.client).1 ≡ [])
      × (ready (handle (connect_done true) v) ≡ some none)
unfolding start_future start handshake_done read_failed resolve_done connect_done make_calls
start_future_lem w k l = (
  refl,
  get-snoc w.promises,
  around-sets w.client.on_connected (length w.promises) true (w.promises ++ none ∷ []) k
      (get-snoc w.promises),
  connected-called w.client.on_connected _ _ _ _,
  around-sets w.client.on_closed (length w.promises) false (w.promises ++ none ∷ []) l
      (get-snoc w.promises),
  around-sets w.client.on_closed (length w.promises) false (w.promises ++ none ∷ []) l
      (get-snoc w.promises),
  refl,
  get-snoc w.promises,
  refl,
  get-snoc w.promises,
)
