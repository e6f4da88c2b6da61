-- ===== src/Logger/Levels.antt =====
-- The macros of include/sancus/logger.h that log at a level, where the logger's mask has it.
pub mod Gates
mod Tests
use sancus_core.Base.{ℕ, ◌^◌, Bool, true, false, Option, none, some, if◌then◌else◌}
use sancus_core.Base.Int.{ℤ}
use sancus_core.Base.Memory.{Bytes}
use sancus_core.Base.Outcome.{Outcome, ok, ◌>>=◌}
use sancus_core.Buffer.{Printer}
use sancus_core.Logger.{Logger, Backend, has_level, vprintf}
use sancus_core.Logger.Dumps.{vdumpf_at}
use sancus_core.Logger.Hexdump.{Formats, vhexdumpf_at}

-- The macros' families: `sancus_log_error`, `_warn`, `_info`, `_trace`, `_debug` and `_notice`.
pub data Kind : Type 0 where
  error : Kind
  warn : Kind
  info : Kind
  trace : Kind
  debug : Kind
  notice : Kind

-- `enum sancus_log_level`, as `sancus_log__error` and its kin pass it on.
abbrev pub level_bit : Kind → ℕ
level_bit error = 0
level_bit warn = 1
level_bit info = 2
level_bit trace = 3
level_bit debug = 4
level_bit notice = 4

-- What they pass of `__func__` and `__LINE__`.
abbrev pub func_of : Kind → Option Bytes → Option Bytes
func_of trace here = here
func_of debug here = here
func_of k here = none

abbrev pub line_of : Kind → ℕ → ℕ
line_of trace line = line
line_of k line = 0

-- `sancus_log__error` and its kin: a call of the logger with its level, function and line.
abbrev pub log_always {ℓ} :
    {A : Type ℓ} → Kind → Option Bytes → ℕ → (ℕ → Option Bytes → ℕ → Outcome A) → Outcome A
log_always k here line call = call (level_bit k) (func_of k here) (line_of k line)

-- `sancus_log__if_level`; `none` where nothing is logged.
unfoldable pub if_level {ℓ} : {A : Type ℓ} → Logger → ℕ → Outcome A → Outcome (Option A)
if_level log mask call = if has_level log mask then (call >>= λ a. ok (some a)) else ok none

-- `sancus_log_error2` and its kin
unfoldable pub log2 {ℓ} :
    {A : Type ℓ}
    → Logger
    → ℕ
    → Kind
    → Option Bytes
    → ℕ
    → (ℕ → Option Bytes → ℕ → Outcome A)
    → Outcome (Option A)
unfolding if_level
log2 log mask k here line call = if_level log mask (log_always k here line call)

-- `SANCUS_LOG_WARN` and its kin, which `sancus_log_warn` and its kin test.
abbrev pub mask_of : Kind → ℕ
mask_of error = 1
mask_of warn = 2
mask_of info = 4
mask_of trace = 8
mask_of debug = 16
mask_of notice = 16

-- `sancus_log_error`, which tests nothing, and its kin.
unfoldable pub log_at {ℓ} :
    {A : Type ℓ}
    → Logger
    → Kind
    → Option Bytes
    → ℕ
    → (ℕ → Option Bytes → ℕ → Outcome A)
    → Outcome (Option A)
unfolding log2
log_at log error here line call = log_always error here line call >>= λ a. ok (some a)
log_at log k here line call = log2 log (mask_of k) k here line call

module _ (log : Logger) (default : Backend) (k : Kind) (here : Option Bytes) (line : ℕ)
    (decimal : ℕ → Printer) (fmt : Option Printer) where
  -- `sancus_log_error(D, ...)` and its kin
  unfoldable pub log_printf : Outcome (Option ℤ)
  unfolding log_at
  log_printf =
      log_at log k here line (λ level func line'. vprintf log default level func line' decimal fmt)

  -- `sancus_log_error_dump(D, ...)` and its kin
  unfoldable pub log_dump : (ℕ → Printer) → Option Bytes → ℕ → Outcome (Option (Option ℤ))
  unfolding log_at
  log_dump suffix m len =
      log_at log k here line
        (λ level func line'. vdumpf_at log default level func line' decimal fmt suffix m len)

  -- `sancus_log_error_hexdump(D, ...)` and its kin
  unfoldable pub log_hexdump : Formats → ℕ → Option Bytes → ℕ → Outcome (Option (Option ℤ))
  unfolding log_at
  log_hexdump formats width m len = log_at log k here line (λ level func line'.
      vhexdumpf_at log default level func line' decimal fmt formats width m len)
