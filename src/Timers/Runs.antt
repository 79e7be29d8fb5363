-- ===== src/Timers/Runs.antt =====
-- Runs of the timers, and what a cancellation prevents.
use ocppwo.Common.{
  ℕ, ◌+◌, ◌≡◌, refl, Bool, true, false, some, ◌&&◌, List, [], ◌∷◌, ◌++◌, ◌==◌, if◌then◌else◌, arith,
  Bool-cases, inl, inr,
}
use ocppwo.Timers.{Wait, waiting, expired, aborted, Timers}
use ocppwo.Timers.Ops.{
  mem, wait_of, change, drop_wait, cancel_wait, expire_wait, post_after, cancel_after, expire,
  clear, cancel_waits, is_aborted, runs_callback, handler_runs,
}

pub data Event : Type 0 where
  posted cleared : Event
  cancelled expires handled : ℕ → Event

-- The timers after an event, and the callbacks that it runs, by their tokens.
unfoldable pub step : Timers → Event → Timers × List ℕ
unfolding post_after cancel_after expire handler_runs clear
step t posted = ((post_after t).0, [])
step t (cancelled id) = ((cancel_after id t).0, [])
step t (expires id) = (expire id t, [])
step t cleared = (clear t, [])
step t (handled id) = ((handler_runs id t).0, if (handler_runs id t).1 then id ∷ [] else [])

unfoldable pub run : Timers → List Event → Timers × List ℕ
run t [] = (t, [])
run t (e ∷ es) = let (t', ran) = step t e in let (last, rest) = run t' es in (last, ran ++ rest)

abbrev pub count : ℕ → List ℕ → ℕ
count id [] = 0
count id (k ∷ ks) = (if k == id then 1 else 0) + count id ks

-- The waits of a token whose handlers have not run.
unfoldable pub held : ℕ → List (ℕ × Wait) → ℕ
held id [] = 0
held id ((k, w) ∷ ws) = (if k == id then 1 else 0) + held id ws

abbrev pub posts_at : ℕ → Timers → Event → ℕ
posts_at id t posted = if t.next_token == id then 1 else 0
posts_at id t _ = 0

-- How often this token is given out.
abbrev pub posts : ℕ → Timers → List Event → ℕ
posts id t [] = 0
posts id t (e ∷ es) = posts_at id t e + posts id (step t e).0 es

count-append : (id : ℕ) (xs ys : List ℕ) → count id (xs ++ ys) ≡ count id xs + count id ys
count-append id [] ys = omega arith
count-append id (x ∷ xs) ys = omega (arith, count-append id xs ys)

-- Whether a token has no wait but aborted ones.
unfoldable pub is_cancelled : ℕ → List (ℕ × Wait) → Bool
is_cancelled id [] = true
is_cancelled id ((k, w) ∷ ws) =
    let rest = is_cancelled id ws in if k == id then is_aborted w && rest else rest

held-is_cancelled : (id : ℕ) (ws : List (ℕ × Wait)) → held id ws ≡ 0 → is_cancelled id ws ≡ true
unfolding held is_cancelled
held-is_cancelled id [] h = refl
held-is_cancelled id ((j, w) ∷ ws) h = ground (arith, h, held-is_cancelled id ws)

-- The cancellation of a token with one wait, under way.
change-is_cancelled :
    (id : ℕ) (ws : List (ℕ × Wait))
    → wait_of id ws ≡ some waiting
    → held id ws ≡ 1
    → is_cancelled id (change cancel_wait id ws) ≡ true
unfolding held is_cancelled change wait_of
change-is_cancelled id [] e h = refl
change-is_cancelled id ((j, waiting) ∷ ws) e h =
    ground (arith, e, h, held-is_cancelled id ws, change-is_cancelled id ws)
change-is_cancelled id ((j, expired) ∷ ws) e h = ground (arith, e, h, change-is_cancelled id ws)
change-is_cancelled id ((j, aborted) ∷ ws) e h = ground (arith, e, h, change-is_cancelled id ws)

-- What is aborted stays so, whatever is cancelled or expires.
cancel-is_cancelled :
    (k id : ℕ) (ws : List (ℕ × Wait))
    → is_cancelled id ws ≡ true
    → is_cancelled id (change cancel_wait k ws) ≡ true
unfolding is_cancelled change
cancel-is_cancelled k id [] h = refl
cancel-is_cancelled k id ((j, waiting) ∷ ws) h = ground (arith, h, cancel-is_cancelled k id ws)
cancel-is_cancelled k id ((j, expired) ∷ ws) h = ground (arith, h, cancel-is_cancelled k id ws)
cancel-is_cancelled k id ((j, aborted) ∷ ws) h = ground (arith, h, cancel-is_cancelled k id ws)

expire-is_cancelled :
    (k id : ℕ) (ws : List (ℕ × Wait))
    → is_cancelled id ws ≡ true
    → is_cancelled id (change expire_wait k ws) ≡ true
unfolding is_cancelled change
expire-is_cancelled k id [] h = refl
expire-is_cancelled k id ((j, waiting) ∷ ws) h = ground (arith, h, expire-is_cancelled k id ws)
expire-is_cancelled k id ((j, expired) ∷ ws) h = ground (arith, h, expire-is_cancelled k id ws)
expire-is_cancelled k id ((j, aborted) ∷ ws) h = ground (arith, h, expire-is_cancelled k id ws)

clear-is_cancelled :
    (id : ℕ) (ws : List (ℕ × Wait))
    → is_cancelled id ws ≡ true
    → is_cancelled id (cancel_waits ws) ≡ true
unfolding is_cancelled cancel_waits
clear-is_cancelled id [] h = refl
clear-is_cancelled id ((j, waiting) ∷ ws) h = ground (arith, h, clear-is_cancelled id ws)
clear-is_cancelled id ((j, expired) ∷ ws) h = ground (arith, h, clear-is_cancelled id ws)
clear-is_cancelled id ((j, aborted) ∷ ws) h = ground (arith, h, clear-is_cancelled id ws)

drop-is_cancelled :
    (k id : ℕ) (ws : List (ℕ × Wait))
    → is_cancelled id ws ≡ true
    → is_cancelled id (drop_wait k ws) ≡ true
unfolding is_cancelled drop_wait
drop-is_cancelled k id [] h = refl
drop-is_cancelled k id ((j, w) ∷ ws) h =
    ground (arith, h, drop-is_cancelled k id ws, Bool-cases (is_aborted w))

-- The handler of a cancelled token calls nothing.
is_cancelled-runs_callback :
    (id : ℕ) (ws : List (ℕ × Wait))
    → is_cancelled id ws ≡ true
    → runs_callback (wait_of id ws) ≡ false
unfolding is_cancelled wait_of
is_cancelled-runs_callback id [] h = refl
is_cancelled-runs_callback id ((j, waiting) ∷ ws) h =
    ground (arith, h, is_cancelled-runs_callback id ws)
is_cancelled-runs_callback id ((j, expired) ∷ ws) h =
    ground (arith, h, is_cancelled-runs_callback id ws)
is_cancelled-runs_callback id ((j, aborted) ∷ ws) h =
    ground (arith, h, is_cancelled-runs_callback id ws)

step-is_cancelled :
    (id : ℕ) (t : Timers) (e : Event)
    → is_cancelled id t.waits ≡ true
    → posts_at id t e ≡ 0
    → (is_cancelled id (step t e).0.waits ≡ true) × (count id (step t e).1 ≡ 0)
unfolding step handler_runs is_cancelled post_after
step-is_cancelled id t posted h n =
    let new : (if t.next_token == id then 1 else 0) ≡ 0 = n in (ground (arith, h, new), refl)
step-is_cancelled id t (cancelled k) h n =
    (ground (arith, h, cancel-is_cancelled k id t.waits), refl)
step-is_cancelled id t (expires k) h n = (expire-is_cancelled k id t.waits h, refl)
step-is_cancelled id t cleared h n = (clear-is_cancelled id t.waits h, refl)
step-is_cancelled id t (handled k) h n = (
  ground (arith, h, drop-is_cancelled k id t.waits),
  ground (
    arith,
    h,
    is_cancelled-runs_callback id t.waits,
    Bool-cases (runs_callback (wait_of k t.waits)),
  ),
)

run-is_cancelled :
    (id : ℕ) (t : Timers) (es : List Event)
    → is_cancelled id t.waits ≡ true
    → posts id t es ≡ 0
    → count id (run t es).1 ≡ 0
unfolding run
run-is_cancelled id t [] h n = refl
run-is_cancelled id t (e ∷ es) h n =
    let (kept, none_ran) = step-is_cancelled id t e h (omega (arith, n)) in
    omega (
      arith,
      none_ran,
      run-is_cancelled id (step t e).0 es kept (omega (arith, n)),
      count-append id (step t e).1 (run (step t e).0 es).1,
    )

-- A token in the map with one wait, which is under way: `cancel_after` answers true, and its
-- callback is never called after that, whatever is posted, cancelled, cleared or expires and
-- whichever handlers run, as long as the token is not given out again.
pub run-cancelled :
    (id : ℕ) (t : Timers) (es : List Event)
    → mem id t.tokens ≡ true
    → wait_of id t.waits ≡ some waiting
    → held id t.waits ≡ 1
    → posts id (cancel_after id t).0 es ≡ 0
    → ((cancel_after id t).1 ≡ true) × (count id (run (cancel_after id t).0 es).1 ≡ 0)
unfolding cancel_after
run-cancelled id t es m e h n = (
  ground (arith, m),
  run-is_cancelled id (cancel_after id t).0 es (rw m (change-is_cancelled id t.waits e h)) n,
)

wait_of-change :
    (f : Wait → Wait) (id : ℕ) (w : Wait) (ws : List (ℕ × Wait))
    → wait_of id ws ≡ some w
    → wait_of id (change f id ws) ≡ some (f w)
unfolding wait_of change
wait_of-change f id w [] e = ground (arith, e)
wait_of-change f id w ((k, v) ∷ ws) e = elim (Bool-cases (k == id)) [
  | inl h ↦ rw (h, wait_of) (rw (h, wait_of) (ground (arith, h, e)))
  | inr h ↦ rw (h, wait_of) (rw (h, wait_of) (wait_of-change f id w ws (ground (arith, h, e))))
]

-- The cancellation of a token in the map, whose timer still has a wait, answers that it cancelled;
-- the handler then calls the callback all the same if the timer had expired before, and only then.
pub cancel_after-handler_runs :
    (id : ℕ) (t : Timers) (w : Wait)
    → mem id t.tokens ≡ true
    → wait_of id t.waits ≡ some w
    → ((cancel_after id t).1 ≡ true)
      × ((handler_runs id (cancel_after id t).0).1 ≡ runs_callback (some w))
unfolding cancel_after handler_runs
cancel_after-handler_runs id t waiting m e =
    rw (m, wait_of-change cancel_wait id waiting t.waits e) (refl, refl)
cancel_after-handler_runs id t expired m e =
    rw (m, wait_of-change cancel_wait id expired t.waits e) (refl, refl)
cancel_after-handler_runs id t aborted m e =
    rw (m, wait_of-change cancel_wait id aborted t.waits e) (refl, refl)
