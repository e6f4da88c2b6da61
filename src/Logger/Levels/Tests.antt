-- ===== src/Logger/Levels/Tests.antt =====
-- The macros at concrete masks.
use sancus_core.Base.{ℕ, ◌≡◌, refl, Option, none, some, [], ◌∷◌, if◌then◌else◌, arith, not, ◌&&◌}
use sancus_core.Base.Memory.{Bytes}
use sancus_core.Base.Outcome.{Outcome, ok, ◌>>=◌}
use sancus_core.Bit.{has_bit}
use sancus_core.Logger.{Entry, has_level}
use sancus_core.Logger.Masks.{unset_mask}
use sancus_core.Logger.Levels.{warn, debug, log_always, log_at, log2, if_level}
use sancus_core.Logger.Levels.Gates.{log_at-unset_mask, log_at-unset_all}

-- Errors, warnings and debugging.
abbrev some_levels : Entry
some_levels = record { prefix = none; mask = 19; prefixer = none; backend = none }

-- A logger that returns the level that it is given.
abbrev call : ℕ → Option Bytes → ℕ → Outcome ℕ
call level func line = ok level

debugging : log_at (some_levels ∷ []) debug none 7 call ≡ ok (some 4)
unfolding log_at log2 if_level has_level
debugging = refl

log_at-unset_mask_example : log_at (unset_mask 2 some_levels ∷ []) warn none 7 call ≡ (
    if has_bit 19 1 && not (has_bit 2 1)
    then (log_always warn none 7 call >>= λ a. ok (some a))
    else ok none)
log_at-unset_mask_example =
    log_at-unset_mask some_levels [] 2 warn none 7 call (omega arith) (omega arith) (omega arith)
      (omega arith)

-- Warnings go on where all levels are taken away.
log_at-unset_all_example : log_at (unset_mask 31 some_levels ∷ []) warn none 7 call ≡ ok (some 1)
log_at-unset_all_example =
    log_at-unset_all some_levels 31 warn none 7 call (omega arith) (omega arith) refl
