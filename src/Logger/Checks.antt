-- ===== src/Logger/Checks.antt =====
-- The asserts and traps of src/sancus/logger.c.
use sancus_core.Base.{ℕ, Bool, false, not, ◌&&◌, Option, if◌then◌else◌}
use sancus_core.Base.Int.{ℤ, pos, eqb_ℤ}
use sancus_core.Base.Memory.{Bytes}
use sancus_core.Base.Outcome.{Outcome, ok, abort, ◌>>=◌}
use sancus_core.Buffer.{Printer}
use sancus_core.Logger.{Logger, Backend, vprintf}

-- `SANCUS_LOG_ERROR_BIT` and `SANCUS_LOG_WARN_BIT`
abbrev pub error_bit : ℕ
error_bit = 0

abbrev pub warn_bit : ℕ
warn_bit = 1

module _ (log : Logger) (default : Backend) (ndebug : Bool) (func : Option Bytes) (line : ℕ)
    (decimal : ℕ → Printer) (fmt : Option Printer) where
  -- `sancus__assert`
  unfoldable pub log_assert : ℤ → Outcome ℤ
  log_assert e =
      if eqb_ℤ e (pos 0)
      then (vprintf log default error_bit func line decimal fmt >>= λ rc.
          if ndebug then ok e else abort)
      else ok e

  -- `sancus__trap`, and whether it raises SIGTRAP; `traced` is whether `ptrace` fails because the
  -- process is traced.
  unfoldable pub log_trap : Bool → ℤ → Outcome (ℤ × Bool)
  log_trap traced e =
      if not (eqb_ℤ e (pos 0))
      then (vprintf log default warn_bit func line decimal fmt >>= λ rc.
          ok (e, not ndebug && traced))
      else ok (e, false)
