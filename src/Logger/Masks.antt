-- ===== src/Logger/Masks.antt =====
-- The functions of include/sancus/logger.h that read and set a logger, and what its mask lets through.
use Prim.Native.Nat.{bit_and, bit_or}
use sancus_core.Base.{
  ℕ, zero, suc, ◌-◌, ◌%◌, ◌^◌, ◌<◌, false, not, ◌||◌, Option, none, [], ◌∷◌, ◌==◌, ◌≡◌, ◌≢◌, refl,
  ap, ◌∙◌, if◌then◌else◌, arith,
}
use native.Mathlib.Nat.{mod-eq_of_lt}
use sancus_core.Base.Int.{ℤ}
use sancus_core.Base.Memory.{Bytes}
use sancus_core.Base.Outcome.{Outcome}
use sancus_core.Base.Digits.{
  bit_and-bit_or, bit_or-clear, bit_and-clear_of, bit_and-clear_other, bit_or-eq_zero, bit_and_self,
  zero-bit_and, zero-bit_or, bit_or_lt,
}
use sancus_core.Bit.{cms, shl}
use sancus_core.Logger.{Logger, Entry, init2, has_level, normal, log_ctx_prefix}

-- `sancus_logger_init`
abbrev pub init : Option Bytes → ℕ → Logger
init prefix mask = init2 [] none mask prefix

-- `SANCUS__LOGGER_INIT`
abbrev static_init : Option Bytes → ℕ → Logger
static_init prefix mask =
    record {
      prefix = prefix;
      mask = if mask == 0 then normal else mask;
      prefixer = none;
      backend = none;
    }
    ∷ []

-- A logger that is declared is one that is initialised.
static_init-init : (prefix : Option Bytes) (mask : ℕ) → static_init prefix mask ≡ init prefix mask
unfolding init2
static_init-init prefix mask = refl

-- `sancus_logger_render_prefix`
abbrev render_prefix : Logger → Bytes → ℕ → Outcome (ℤ × Bytes)
render_prefix log buf size = log_ctx_prefix log buf size

-- `sancus_logger_get_parent`, `sancus_logger_get_prefix`
abbrev pub get_parent : Logger → Logger
get_parent [] = []
get_parent (e ∷ ps) = ps

abbrev pub get_prefix : Logger → Option Bytes
get_prefix [] = none
get_prefix (e ∷ ps) = e.prefix

-- `sancus_logger_set_prefix`, `sancus_logger_set_prefixer` and `sancus_logger_set_mask`
abbrev pub set_prefix : Option Bytes → Entry → Entry
set_prefix prefix e = record e { prefix = prefix }

abbrev pub set_prefixer : Option (Bytes → Outcome (ℤ × Bytes)) → Entry → Entry
set_prefixer f e = record e { prefixer = f }

abbrev pub set_mask : ℕ → Entry → Entry
set_mask mask e = record e { mask = mask }

-- `sancus_logger_extend_mask` and `sancus_logger_unset_mask`
unfoldable pub extend_mask : ℕ → Entry → Entry
extend_mask mask e = record e { mask = cms e.mask mask mask 0 % 2 ^ 32 }

unfoldable pub unset_mask : ℕ → Entry → Entry
unset_mask mask e = record e { mask = cms e.mask 0 mask 0 % 2 ^ 32 }

same_shl : (m : ℕ) → m < 2 ^ 32 → shl m 0 ≡ m
same_shl m h = omega arith

extended : (old m : ℕ) → old < 2 ^ 32 → m < 2 ^ 32 → cms old m m 0 % 2 ^ 32 ≡ bit_or old m
unfolding cms
extended old m h k =
    rw (bit_and_self m, same_shl m k, bit_or-clear old m) (mod-eq_of_lt (bit_or_lt 32 old m h k))

unset : (old m : ℕ) → old < 2 ^ 32 → m < 2 ^ 32 → cms old 0 m 0 % 2 ^ 32 ≡ old - bit_and old m
unfolding cms
unset old m h k =
    rw (zero-bit_and m, same_shl m k, zero-bit_or (old - bit_and old m))
      (mod-eq_of_lt (omega arith))

-- A level that is not the default one and not an error.
abbrev pub IsPlain : ℕ → Type 0
IsPlain l = (l ≢ 0) × (bit_and l 1 ≡ 0)

has_level-plain :
    (e : Entry) (ps : Logger) (l : ℕ)
    → IsPlain l
    → has_level (e ∷ ps) l ≡ (if e.mask == 0 then has_level ps l else not (bit_and l e.mask == 0))
unfolding has_level
has_level-plain e ps l plain = rw (plain.1) (ground arith)

either_zero : (a b : ℕ) → not (bit_or a b == 0) ≡ (not (a == 0) || not (b == 0))
either_zero zero b = rw (zero-bit_or b)
either_zero (suc a) b = ground (arith, bit_or-eq_zero (suc a) b)

-- A logger whose mask is extended by some levels lets those through, and what it did before.
pub has_level-extend_mask :
    (e : Entry) (ps : Logger) (m l : ℕ)
    → e.mask < 2 ^ 32
    → m < 2 ^ 32
    → m ≢ 0
    → IsPlain l
    → has_level (extend_mask m e ∷ ps) l ≡ (not (bit_and l e.mask == 0) || not (bit_and l m == 0))
unfolding extend_mask
has_level-extend_mask e ps m l h k some_level plain = rw (
  has_level-plain (extend_mask m e) ps l plain,
  extended e.mask m h k,
  levels,
  bit_and-bit_or l e.mask m,
  either_zero (bit_and l e.mask) (bit_and l m),
)
  where
    levels : (bit_or e.mask m == 0) ≡ false
    levels = ground (arith, bit_or-eq_zero e.mask m)

-- A logger loses the levels that are taken from its mask where others are left; a mask that is left
-- empty stands for that of the parent, or for the usual levels where there is none.
pub has_level-unset_mask :
    (e : Entry) (ps : Logger) (m l : ℕ)
    → e.mask < 2 ^ 32
    → m < 2 ^ 32
    → IsPlain l
    → bit_and l m ≡ l
    → has_level (unset_mask m e ∷ ps) l
      ≡ (if e.mask - bit_and e.mask m == 0 then has_level ps l else false)
unfolding unset_mask
has_level-unset_mask e ps m l h k plain within = rw (
  has_level-plain (unset_mask m e) ps l plain,
  unset e.mask m h k,
  bit_and-clear_of l e.mask m within,
)

-- The levels that are not taken are as they were in its mask.
pub has_level-unset_other :
    (e : Entry) (ps : Logger) (m l : ℕ)
    → e.mask < 2 ^ 32
    → m < 2 ^ 32
    → IsPlain l
    → bit_and l m ≡ 0
    → has_level (unset_mask m e ∷ ps) l
      ≡ (if e.mask - bit_and e.mask m == 0 then has_level ps l else not (bit_and l e.mask == 0))
unfolding unset_mask
has_level-unset_other e ps m l h k plain apart = rw (
  has_level-plain (unset_mask m e) ps l plain,
  unset e.mask m h k,
  bit_and-clear_other l e.mask m apart,
)

-- Where no level is left, it is as if the mask had been empty from the start.
pub has_level-unset_all :
    (e : Entry) (ps : Logger) (m l : ℕ)
    → e.mask < 2 ^ 32
    → m < 2 ^ 32
    → bit_and e.mask m ≡ e.mask
    → has_level (unset_mask m e ∷ ps) l ≡ has_level (set_mask 0 e ∷ ps) l
unfolding unset_mask
has_level-unset_all e ps m l h k all =
    ap (λ (mask : ℕ). has_level (record e { mask = mask } ∷ ps) l)
      (unset e.mask m h k ∙ omega arith)
