-- ===== src/Clock.antt =====
-- src/sancus/clock.c and include/sancus/clock.h: the time of a clock that may be replaced. What
-- `clock_gettime` returns and stores is an argument, and so is what a clock's function does.
mod Tests
use sancus_core.Base.{Option, none, some, not, if◌then◌else◌}
use sancus_core.Base.Int.{ℤ, pos, eqb_ℤ}
use sancus_core.Time.{Timespec, zero_ts}

-- What a call for the time comes to: its result, and the time that it stores.
pub record Reading : Type 0 where
  pub err : ℤ
  pub ts : Timespec

-- `struct sancus_clock`: its function, on its data.
pub record Clock : Type 0 where
  pub f : Option Reading

-- The call that `sancus_clock_gettime` makes; `real` is that of `sancus_gettime`.
abbrev pub chosen : Option Clock → Reading → Reading
chosen none real = real
chosen (some clk) real = elim clk.f [ none ↦ real | some r ↦ r ]

-- `sancus_clock_gettime`, with a place for the time.
unfoldable pub clock_gettime : Option Clock → Reading → Reading
clock_gettime clk real =
    let r : Reading = chosen clk real in
    if not (eqb_ℤ r.err (pos 0)) then record { err = r.err; ts = zero_ts } else r

-- `sancus_set_now_clock`, of the state that `backend` is, and `sancus_now`.
abbrev pub set_now_clock : Option Clock → Option Clock → Option Clock
set_now_clock clk backend = clk

abbrev pub now : Option Clock → Reading → Reading
now backend real = clock_gettime backend real

-- `sancus_now_ts`
abbrev pub now_ts : Option Clock → Reading → Timespec
now_ts backend real = (now backend real).ts
