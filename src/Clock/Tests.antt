-- ===== src/Clock/Tests.antt =====
-- A clock that fails tells the time 0.
use sancus_core.Base.{none, some, ◌≡◌, refl}
use sancus_core.Base.Int.{pos, negsuc}
use sancus_core.Time.{zero_ts}
use sancus_core.Clock.{Reading, Clock, clock_gettime, now_ts, set_now_clock}

abbrev noon : Reading
noon = record { err = pos 0; ts = record { sec = pos 43200; nsec = pos 0 } }

abbrev broken : Clock
broken = record { f = some (record { err = negsuc 0; ts = record { sec = pos 7; nsec = pos 0 } }) }

fails : now_ts (set_now_clock (some broken) none) noon ≡ zero_ts
unfolding clock_gettime
fails = refl

works : now_ts none noon ≡ noon.ts
unfolding clock_gettime
works = refl
