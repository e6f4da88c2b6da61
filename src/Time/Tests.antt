-- ===== src/Time/Tests.antt =====
-- Runs of the time functions, and the theorems at concrete durations.
use sancus_core.Base.{ℕ, ◌≡◌, refl, arith}
use sancus_core.Base.Int.{pos, quot, ◌+ℤ◌, ◌*ℤ◌, ◌-ℤ◌}
use sancus_core.Time.{carried, fix, sub, ts_to_ms, new_ms, new}
use sancus_core.Time.Laws.{ts, of_ns, sub-of_ns}

-- Two seconds and a half.
abbrev later : ℕ
later = 2500000000

abbrev sooner : ℕ
sooner = 900000000

later_ms : ts_to_ms (of_ns later) ≡ pos 2500
unfolding ts_to_ms quot ◌+ℤ◌ ◌*ℤ◌
later_ms = refl

from_ms : new_ms (pos 2500) ≡ of_ns later
unfolding new_ms new fix carried quot ◌*ℤ◌ ◌+ℤ◌ ◌-ℤ◌
from_ms = refl

sub-of_ns_example : sub (of_ns later) (of_ns sooner) ≡ (pos 1, ts 1 600000000)
sub-of_ns_example = sub-of_ns later sooner (omega arith)
