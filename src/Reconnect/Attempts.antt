-- ===== src/Reconnect/Attempts.antt =====
-- Connection attempts and retries.
use ocppwo.Common.{ℕ, suc, ◌+◌, ◌≡◌, ◌<◌, refl, true, false, List, [], ◌∷◌, ◌++◌, All, arith}
use ocppwo.Reconnect.{
  disconnected, connecting, ReconnectController, retry, resume, Effect, signal_connecting,
  signal_connected, signal_online, signal_offline, signal_closed, signal_backoff, connect, close,
  post,
}
use ocppwo.Reconnect.Steps.{
  Event, started, stopped, close_completes, transport_opened, transport_closed, boot_accepted,
  connect_completes, job, step, run,
}

-- The connection attempts among the effects, and the retries posted.
abbrev pub connects : List Effect → ℕ
connects [] = 0
connects (connect url ∷ es) = suc (connects es)
connects (_ ∷ es) = connects es

abbrev pub retries : List Effect → ℕ
retries [] = 0
retries (post delay retry ∷ es) = suc (retries es)
retries (_ ∷ es) = retries es

-- A connection attempt starts only while nothing is connected or connecting, and at most one in a
-- step; the controller then is connecting.
pub step-connects :
    (c : ReconnectController) (e : Event)
    → 0 < connects (step c e).1
    → (c.state ≡ disconnected) × ((step c e).0.state ≡ connecting) × (connects (step c e).1 ≡ 1)
unfolding step
step-connects c (started url now) h = ground arith
step-connects c stopped h = ground arith
step-connects c close_completes h = ground arith
step-connects c (transport_opened now) h = ground arith
step-connects c (transport_closed jitter why) h = ground arith
step-connects c boot_accepted h = ground arith
step-connects c (connect_completes now jitter true) h = ground arith
step-connects c (connect_completes now jitter false) h = ground arith
step-connects c (job now retry) h = ground arith
step-connects c (job now resume) h = ground arith

retries-append : (xs ys : List Effect) → retries (xs ++ ys) ≡ retries xs + retries ys
retries-append [] ys = omega arith
retries-append (post delay retry ∷ xs) ys = omega (arith, retries-append xs ys)
retries-append (post delay resume ∷ xs) ys = retries-append xs ys
retries-append (signal_connecting ∷ xs) ys = retries-append xs ys
retries-append (signal_connected ∷ xs) ys = retries-append xs ys
retries-append (signal_online ∷ xs) ys = retries-append xs ys
retries-append (signal_offline ∷ xs) ys = retries-append xs ys
retries-append (signal_closed why ∷ xs) ys = retries-append xs ys
retries-append (signal_backoff delay ∷ xs) ys = retries-append xs ys
retries-append (connect url ∷ xs) ys = retries-append xs ys
retries-append (close ∷ xs) ys = retries-append xs ys

connects-append : (xs ys : List Effect) → connects (xs ++ ys) ≡ connects xs + connects ys
connects-append [] ys = omega arith
connects-append (connect url ∷ xs) ys = omega (arith, connects-append xs ys)
connects-append (post delay j ∷ xs) ys = connects-append xs ys
connects-append (signal_connecting ∷ xs) ys = connects-append xs ys
connects-append (signal_connected ∷ xs) ys = connects-append xs ys
connects-append (signal_online ∷ xs) ys = connects-append xs ys
connects-append (signal_offline ∷ xs) ys = connects-append xs ys
connects-append (signal_closed why ∷ xs) ys = connects-append xs ys
connects-append (signal_backoff delay ∷ xs) ys = connects-append xs ys
connects-append (close ∷ xs) ys = connects-append xs ys

step-attempt :
    (c : ReconnectController) (e : Event)
    → c.ops.post_after ≡ true
    → ((step c e).0.attempt ≡ c.attempt + retries (step c e).1)
      × ((step c e).0.ops.post_after ≡ true)
unfolding step
step-attempt c (started url now) h = ground arith
step-attempt c stopped h = ground arith
step-attempt c close_completes h = ground arith
step-attempt c (transport_opened now) h = ground arith
step-attempt c (transport_closed jitter why) h = ground arith
step-attempt c boot_accepted h = ground arith
step-attempt c (connect_completes now jitter true) h = ground arith
step-attempt c (connect_completes now jitter false) h = ground arith
step-attempt c (job now retry) h = ground arith
step-attempt c (job now resume) h = ground arith

-- With a timer operation, the attempt that the backoff is computed from counts every retry that
-- was ever scheduled: a successful connection does not reset it.
pub run-attempt :
    (c : ReconnectController) (es : List Event)
    → c.ops.post_after ≡ true
    → (run c es).0.attempt ≡ c.attempt + retries (run c es).1
unfolding run
run-attempt c [] h = omega arith
run-attempt c (e ∷ es) h =
    let (counted, kept) = step-attempt c e h in
    omega (
      arith,
      counted,
      run-attempt (step c e).0 es kept,
      retries-append (step c e).1 (run (step c e).0 es).1,
    )

-- Not a call of `start`.
abbrev pub IsNotStart : Event → Type 0
IsNotStart (started url now) = ⊥
IsNotStart _ = Unit

step-connects_unshared :
    (c : ReconnectController) (e : Event)
    → IsNotStart e
    → c.shared ≡ false
    → (connects (step c e).1 ≡ 0) × ((step c e).0.shared ≡ false)
unfolding step
step-connects_unshared c (started url now) n h = absurd n
step-connects_unshared c stopped n h = ground arith
step-connects_unshared c close_completes n h = ground arith
step-connects_unshared c (transport_opened now) n h = ground arith
step-connects_unshared c (transport_closed jitter why) n h = ground arith
step-connects_unshared c boot_accepted n h = ground arith
step-connects_unshared c (connect_completes now jitter true) n h = ground arith
step-connects_unshared c (connect_completes now jitter false) n h = ground arith
step-connects_unshared c (job now retry) n h = ground arith
step-connects_unshared c (job now resume) n h = ground arith

-- A controller that no shared_ptr owns, as ReconnectGlue makes it, attempts no connection but those
-- that `start` asks for: its retries come to nothing.
pub run-connects_unshared :
    (c : ReconnectController) (es : List Event)
    → All IsNotStart es
    → c.shared ≡ false
    → connects (run c es).1 ≡ 0
unfolding run
run-connects_unshared c [] n h = refl
run-connects_unshared c (e ∷ es) (n, ns) h =
    let (nothing, kept) = step-connects_unshared c e n h in
    omega (
      arith,
      nothing,
      run-connects_unshared (step c e).0 es ns kept,
      connects-append (step c e).1 (run (step c e).0 es).1,
    )

-- A call of `stop` while a shared controller is disconnected and its retry is scheduled changes
-- nothing: the retry still connects.
pub stop-retry :
    (c : ReconnectController) (now : ℕ)
    → c.state ≡ disconnected
    → c.shared ≡ true
    → c.reconnect_scheduled ≡ true
    → c.ops.async_connect ≡ true
    → (connects (run c (stopped ∷ job now retry ∷ [])).1 ≡ 1)
      × ((run c (stopped ∷ job now retry ∷ [])).0.state ≡ connecting)
unfolding run step
stop-retry c now d s r o = ground arith
