-- ===== src/Ws/Closing.antt =====
-- What `close` comes to, and the bounds of the write pipeline.
use ocppwo.Common.{◌≡◌, refl, ◌≤◌, false, List, String, length, if◌then◌else◌, All}
use ocppwo.Metrics.{Metrics}
use ocppwo.Ws.{new_client}
use ocppwo.Ws.Writes.{is_empty, transport_max_writes_in_flight, transport_current_write_queue_depth}
use ocppwo.Ws.Machine.{Machine, Event, run, idle}
use ocppwo.Ws.Invariant.{IsRunning, IsNoClose, run-IsRunning, new_client-IsRunning}
use ocppwo.Ws.Drops.{IsNoDrop, run-IsUndropped}

module _ (K : Type 0) (host port : String) (metrics : Metrics) (es : List Event) where
  abbrev reached : Machine K
  reached = run (idle {K = K} (new_client host port metrics)) es

  reached-IsRunning : IsRunning reached
  reached-IsRunning = run-IsRunning _ es (new_client-IsRunning host port metrics)

  -- No sequence of calls and completions in which nobody asks for a graceful `force_drop` makes the
  -- client start a closing handshake, however often `close` is called: the flag of
  -- `tentative_close` stays false, no task that calls async_close is posted, and no async_close is
  -- outstanding, neither of `tentative_close` nor of `force_drop`.
  pub run-never_closes :
      All IsNoDrop es
      → (reached.client.close_started ≡ false)
        × All IsNoClose reached.tasks
        × (reached.closing ≡ false)
        × (reached.quiet_closing ≡ false)
  run-never_closes n = (
    reached-IsRunning.sound.open_still,
    reached-IsRunning.unasked,
    reached-IsRunning.unclosed,
    run-IsUndropped _ es (record { unposted = tt; unrun = refl }) n,
  )

  -- At any time the client has at most one write in flight, and exactly one while texts are queued;
  -- the depth that it reports is the length of the queue, of at most 1001 texts; and the maximum of
  -- writes in flight that it reports is 0.
  pub run_pipeline :
      (reached.client.writes_in_flight ≡ (if is_empty reached.client.write_queue then 0 else 1))
      × (reached.writing ≡ reached.client.write_in_progress)
      × (transport_current_write_queue_depth reached.client ≡ length reached.client.write_queue)
      × (length reached.client.write_queue ≤ 1001)
      × (transport_max_writes_in_flight reached.client ≡ 0)
  unfolding transport_current_write_queue_depth transport_max_writes_in_flight
  run_pipeline = (
    reached-IsRunning.sound.in_flight, reached-IsRunning.linked, reached-IsRunning.sound.depth,
    reached-IsRunning.sound.bounded, reached-IsRunning.sound.unseen,
  )
