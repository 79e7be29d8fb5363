-- ===== src/Reconnect/Delay.antt =====
-- The delay before jitter, against the formula that it computes.
use native.Mathlib.Nat.{div-lt_iff_lt-mul, le-div_iff_mul-le, pow-le-pow_right, one-le-pow}
use ocppwo.Common.{
  ℕ, ◌-◌, ◌*◌, ◌/◌, ◌^◌, ◌≤◌, ◌<◌, ◌≡◌, min, arith, ltb, inl, inr, Bool-cases, ltb→lt, false,
  if◌then◌else◌,
}
use ocppwo.Reconnect.{ReconnectPolicy}
use ocppwo.Reconnect.Backoff.{shifted_delay, base_delay}

not-ltb→le : (a b : ℕ) → ltb a b ≡ false → b ≤ a
not-ltb→le a b h = ground arith

-- A shift of 64 or more would exceed every cap.
large_shift :
    (cap delay shift : ℕ) → 0 < delay → cap < 2 ^ 64 → 63 < shift → cap < delay * 2 ^ shift
large_shift cap delay shift h k l =
    let p : 2 ^ 64 ≤ 2 ^ shift = pow-le-pow_right {n = 2} (omega arith) {i = 64} {j = shift} l in
    grind arith

shifted_delay-min :
    (cap delay shift : ℕ)
    → 0 < delay
    → cap < 2 ^ 64
    → shifted_delay cap delay shift ≡ min (delay * 2 ^ shift) cap
unfolding shifted_delay
shifted_delay-min cap delay shift h k = elim (Bool-cases (ltb 63 shift)) [
  | inl far ↦ rw far (omega (arith, large_shift cap delay shift h k (ltb→lt 63 shift far)))
  | inr near ↦ elim (Bool-cases (ltb (cap / 2 ^ shift) delay)) [
    | inl over ↦
        rw (near, over)
          (omega (
            arith,
            (div-lt_iff_lt-mul {k = 2 ^ shift} (one-le-pow shift 2 (omega arith))).0
                (ltb→lt (cap / 2 ^ shift) delay over),
          ))
    | inr fits ↦
        rw (near, fits)
          (omega (
            arith,
            (le-div_iff_mul-le {k = 2 ^ shift} (one-le-pow shift 2 (omega arith))).0
                (not-ltb→le (cap / 2 ^ shift) delay fits),
          ))
  ]
]

-- For a policy with a positive start and a cap below 2^64, the delay of every attempt is the start
-- doubled for each attempt after the first, but at most the cap: no shift overflows.
pub base_delay-min :
    (p : ReconnectPolicy) (attempt : ℕ)
    → 0 < p.initial_backoff
    → p.max_backoff < 2 ^ 64
    → base_delay p attempt ≡ min (p.initial_backoff * 2 ^ (attempt - 1)) p.max_backoff
unfolding base_delay
base_delay-min p attempt h k =
    rw (shift_of attempt) (shifted_delay-min p.max_backoff p.initial_backoff (attempt - 1) h k)
  where
    shift_of : (n : ℕ) → (if ltb 0 n then n - 1 else 0) ≡ n - 1
    shift_of n = ground arith
