-- ===== src/Reconnect/Backoff.antt =====
-- `compute_backoff_`. The scaling of the delay by a random float is a parameter.
use ocppwo.Common.{ℕ, ◌-◌, ◌*◌, ◌/◌, ◌%◌, ◌^◌, ltb, if◌then◌else◌}
use ocppwo.Reconnect.{ReconnectPolicy}

-- The three branches on the shift, on uint64_t.
unfoldable pub shifted_delay : ℕ → ℕ → ℕ → ℕ
shifted_delay cap delay shift =
    if ltb 63 shift
    then cap
    else if ltb (cap / 2 ^ shift) delay
    then cap
    else (delay * 2 ^ shift) % 2 ^ 64

-- The delay before jitter.
unfoldable pub base_delay : ReconnectPolicy → ℕ → ℕ
unfolding shifted_delay
base_delay p attempt =
    shifted_delay p.max_backoff p.initial_backoff (if ltb 0 attempt then attempt - 1 else 0)

unfoldable pub compute_backoff : (ℕ → ℕ) → ReconnectPolicy → ℕ → ℕ
unfolding base_delay
compute_backoff jitter p attempt = jitter (base_delay p attempt)
