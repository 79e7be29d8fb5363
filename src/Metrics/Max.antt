-- ===== src/Metrics/Max.antt =====
-- What `update_max` guarantees when other threads write the same target.
use ocppwo.Common.{
  ℕ, ◌≤◌, ◌≡◌, Option, some, List, [], ◌∷◌, ◌++◌, max, arith, Bool-cases, ltb, ◌==◌, ◌&&◌, not, inl,
  inr, false,
}
use ocppwo.Metrics.Ops.{Turn, max_loop, update_max, raise}

-- Other threads only raise the target from one turn to the next.
abbrev pub OnlyRaised : ℕ → List Turn → Type 0
OnlyRaised target [] = Unit
OnlyRaised target (t ∷ ts) = (target ≤ t.seen) × OnlyRaised t.seen ts

-- What the last of these turns saw.
abbrev pub last_seen : ℕ → List Turn → ℕ
last_seen target [] = target
last_seen target (t ∷ ts) = last_seen t.seen ts

-- These turns, and then one in which nothing disturbs the exchange.
abbrev pub until_quiet : ℕ → List Turn → List Turn
until_quiet target turns = turns ++ record { seen = last_seen target turns; spurious = false } ∷ []

-- The loop returns, and raises.
abbrev pub Raises : Option ℕ → ℕ → ℕ → Type 0
Raises r target value = (final : ℕ) × (r ≡ some final) × (value ≤ final) × (target ≤ final)

max_loop_lem :
    (ts : List Turn) (cur value : ℕ)
    → OnlyRaised cur ts
    → Raises (max_loop (until_quiet cur ts) cur value) cur value
unfolding max_loop
max_loop_lem [] cur value h = (max value cur, ground arith, omega arith, omega arith)
max_loop_lem (t ∷ ts) cur value h = elim (Bool-cases (ltb cur value)) [
  | inr e ↦ (cur, ground (arith, e), ground (arith, e), omega arith)
  | inl e ↦ elim (Bool-cases (t.seen == cur && not t.spurious)) [
    | inl q ↦ (value, ground (arith, e, q), omega arith, ground (arith, e))
    | inr q ↦
        let (final, r, above, below) = max_loop_lem ts t.seen value h.1 in
        (final, ground (arith, e, q, r), above, omega (arith, h.0, below))
  ]
]

-- If other threads only raise the target, then whatever they do and however often the exchange
-- fails spuriously, the first turn in which nothing disturbs it ends the loop, which leaves in the
-- target at least the new value and at least what it found there.
pub update_max_lem :
    (turns : List Turn) (target value : ℕ)
    → OnlyRaised target turns
    → Raises (update_max (until_quiet target turns) target value) target value
unfolding update_max
update_max_lem turns target value h = max_loop_lem turns target value h

-- One thread alone leaves the maximum.
pub raise-max : (target value : ℕ) → raise target value ≡ max target value
unfolding raise
raise-max target value = ground arith
