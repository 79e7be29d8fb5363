-- ===== src/Timers/Ops.antt =====
-- The operations, and what Boost does with a wait.
use ocppwo.Common.{
  ℕ, ◌+◌, ◌%◌, ◌^◌, Bool, true, false, Option, none, some, List, [], ◌∷◌, ◌==◌, if◌then◌else◌,
}
use ocppwo.Timers.{Wait, waiting, expired, aborted, Timers}

unfoldable pub mem : ℕ → List ℕ → Bool
mem id [] = false
mem id (k ∷ ks) = if k == id then true else mem id ks

unfoldable pub remove : ℕ → List ℕ → List ℕ
remove id [] = []
remove id (k ∷ ks) = let rest = remove id ks in if k == id then rest else k ∷ rest

-- The oldest wait of a timer.
unfoldable pub wait_of : ℕ → List (ℕ × Wait) → Option Wait
wait_of id [] = none
wait_of id ((k, w) ∷ ws) = if k == id then some w else wait_of id ws

unfoldable pub change : (Wait → Wait) → ℕ → List (ℕ × Wait) → List (ℕ × Wait)
change f id [] = []
change f id ((k, w) ∷ ws) = if k == id then (k, f w) ∷ ws else (k, w) ∷ change f id ws

unfoldable pub drop_wait : ℕ → List (ℕ × Wait) → List (ℕ × Wait)
drop_wait id [] = []
drop_wait id ((k, w) ∷ ws) = if k == id then ws else (k, w) ∷ drop_wait id ws

-- `steady_timer::cancel`: only a wait under way is aborted.
abbrev pub cancel_wait : Wait → Wait
cancel_wait waiting = aborted
cancel_wait expired = expired
cancel_wait aborted = aborted

abbrev pub expire_wait : Wait → Wait
expire_wait waiting = expired
expire_wait expired = expired
expire_wait aborted = aborted

-- `post_after`, with the token that it returns
unfoldable pub post_after : Timers → Timers × ℕ
post_after t = (
  record {
    next_token = (t.next_token + 1) % 2 ^ 64;
    tokens = t.next_token ∷ t.tokens;
    waits = (t.next_token, waiting) ∷ t.waits;
  },
  t.next_token,
)

-- `cancel_after`
unfoldable pub cancel_after : ℕ → Timers → Timers × Bool
unfolding mem remove change
cancel_after id t =
    if mem id t.tokens
    then (record t { tokens = remove id t.tokens; waits = change cancel_wait id t.waits }, true)
    else (t, false)

-- A timer's time is over.
unfoldable pub expire : ℕ → Timers → Timers
unfolding change
expire id t = record t { waits = change expire_wait id t.waits }

-- Whether the handler runs the callback, if it runs.
abbrev pub runs_callback : Option Wait → Bool
runs_callback (some expired) = true
runs_callback _ = false

abbrev pub is_over : Option Wait → Bool
is_over (some expired) = true
is_over (some aborted) = true
is_over _ = false

abbrev pub is_aborted : Wait → Bool
is_aborted aborted = true
is_aborted _ = false

-- The handler of a wait that is over, and whether it calls the callback.
unfoldable pub handler_runs : ℕ → Timers → Timers × Bool
unfolding remove wait_of drop_wait
handler_runs id t =
    if is_over (wait_of id t.waits)
    then (
      record t { tokens = remove id t.tokens; waits = drop_wait id t.waits },
      runs_callback (wait_of id t.waits),
    )
    else (t, false)

unfoldable pub cancel_waits : List (ℕ × Wait) → List (ℕ × Wait)
cancel_waits [] = []
cancel_waits ((k, w) ∷ ws) = (k, cancel_wait w) ∷ cancel_waits ws

-- The loop of `stop_controller` over the map.
unfoldable pub clear : Timers → Timers
unfolding cancel_waits
clear t = record t { tokens = []; waits = cancel_waits t.waits }
