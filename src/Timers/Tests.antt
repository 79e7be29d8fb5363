-- ===== src/Timers/Tests.antt =====
-- The timers on concrete runs.
use ocppwo.Common.{◌≡◌, refl, true, List, [], ◌∷◌}
use ocppwo.Timers.{Timers, no_timers}
use ocppwo.Timers.Ops.{post_after, expire, cancel_after, mem, wait_of}
use ocppwo.Timers.Runs.{
  Event, posted, cancelled, expires, handled, step, run, count, held, run-cancelled,
}

-- The first timer is cancelled after it has expired, the second in time.
abbrev race : List Event
race = posted ∷ posted ∷ expires 1 ∷ cancelled 1 ∷ cancelled 2 ∷ handled 1 ∷ handled 2 ∷ []

race_ran : (run no_timers race).1 ≡ 1 ∷ []
unfolding run step
race_ran = refl

-- Two timers, of which the first is under way when it is cancelled.
abbrev two_timers : Timers
two_timers = (post_after (post_after no_timers).0).0

abbrev after_cancel : List Event
after_cancel = expires 1 ∷ expires 2 ∷ posted ∷ handled 1 ∷ handled 2 ∷ handled 1 ∷ []

run-cancelled_example :
    ((cancel_after 1 two_timers).1 ≡ true)
    × (count 1 (run (cancel_after 1 two_timers).0 after_cancel).1 ≡ 0)
unfolding post_after cancel_after mem wait_of held step
run-cancelled_example = run-cancelled 1 two_timers after_cancel refl refl refl refl

abbrev late : Timers
late = expire 1 (post_after no_timers).0
