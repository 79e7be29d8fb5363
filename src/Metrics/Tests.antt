-- ===== src/Metrics/Tests.antt =====
-- The metrics on concrete inputs.
use ocppwo.Common.{true, false, List, [], ◌∷◌, arith}
use ocppwo.Metrics.Ops.{Turn, update_max}
use ocppwo.Metrics.Max.{Raises, until_quiet, update_max_lem}

-- A spurious failure, and another thread that writes 7.
abbrev contended : List Turn
contended = record { seen = 3; spurious = true } ∷ record { seen = 7; spurious = false } ∷ []

update_max_lem_example : Raises (update_max (until_quiet 3 contended) 3 9) 3 9
update_max_lem_example = update_max_lem contended 3 9 (omega arith, (omega arith, tt))
