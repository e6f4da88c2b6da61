-- ===== src/Logger/Levels/Gates.antt =====
-- What the mask of a logger lets through.
use Prim.Native.Nat.{bit_and}
use sancus_core.Base.{
  ℕ, ◌-◌, ◌^◌, ◌<◌, true, false, not, ltb, ◌||◌, ◌&&◌, Option, none, some, [], ◌∷◌, ◌==◌, ◌≡◌, ◌≢◌,
  refl, ◌∙◌, if◌then◌else◌, arith, Bool-cases, inl, inr,
}
use sancus_core.Base.Memory.{Bytes}
use sancus_core.Base.Outcome.{Outcome, ok, ◌>>=◌}
use sancus_core.Base.Digits.{digit, digit_lt, bit_and-bit, bit_and_comm}
use native.Mathlib.Nat.{one-le-pow}
use sancus_core.Bit.{bit, has_bit}
use sancus_core.Logger.{Logger, Entry, has_level}
use sancus_core.Logger.Masks.{
  set_mask, unset_mask, extend_mask, has_level-unset_all, has_level-unset_mask,
  has_level-extend_mask, has_level-unset_other, IsPlain,
}
use sancus_core.Logger.Levels.{
  Kind, error, warn, info, trace, debug, notice, level_bit, log_always, log_at, log2, if_level,
}

-- The mask that a macro tests is the bit of the level that it passes on; errors are logged as if it
-- had been tested.
pub log_at_lem {ℓ} :
    {A : Type ℓ} (log : Logger) (k : Kind) (here : Option Bytes) (line : ℕ)
    (call : ℕ → Option Bytes → ℕ → Outcome A)
    → log_at log k here line call ≡ (
        if has_level log (2 ^ level_bit k)
        then (log_always k here line call >>= λ a. ok (some a))
        else ok none)
unfolding log_at log2 if_level has_level
log_at_lem log error here line call = rw (every_error log)
  where
    every_error : (l : Logger) → has_level l 1 ≡ true
    every_error [] = refl
    every_error (e ∷ ps) = refl
log_at_lem log warn here line call = refl
log_at_lem log info here line call = refl
log_at_lem log trace here line call = refl
log_at_lem log debug here line call = refl
log_at_lem log notice here line call = refl

-- The levels but for errors.
plain : (k : Kind) → 0 < level_bit k → IsPlain (2 ^ level_bit k)
plain error h = absurd (omega arith)
plain warn h = (omega arith, refl)
plain info h = (omega arith, refl)
plain trace h = (omega arith, refl)
plain debug h = (omega arith, refl)
plain notice h = (omega arith, refl)

has_bit-digit : (m : ℕ) (k : Kind) → has_bit m (level_bit k) ≡ (digit (level_bit k) m == 1)
unfolding has_bit
has_bit-digit m k =
    rw (bit_and_comm m (bit (level_bit k)), in_word k, bit_and-bit (level_bit k) m)
      (ground (arith, digit_lt (level_bit k) m, one-le-pow (level_bit k) 2))
  where
    in_word : (j : Kind) → bit (level_bit j) ≡ 2 ^ level_bit j
    in_word error = refl
    in_word warn = refl
    in_word info = refl
    in_word trace = refl
    in_word debug = refl
    in_word notice = refl

has_bit-test : (m : ℕ) (k : Kind) → has_bit m (level_bit k) ≡ not (bit_and (2 ^ level_bit k) m == 0)
has_bit-test m k =
    rw (has_bit-digit m k, bit_and-bit (level_bit k) m)
      (ground (arith, digit_lt (level_bit k) m, one-le-pow (level_bit k) 2))

-- What is logged where a logger loses some levels and keeps others: nothing at a level that is
-- taken or was not there, but for errors, and the rest as before.
pub log_at-unset_mask {ℓ} :
    {A : Type ℓ} (e : Entry) (ps : Logger) (m : ℕ) (k : Kind) (here : Option Bytes) (line : ℕ)
    (call : ℕ → Option Bytes → ℕ → Outcome A)
    → e.mask < 2 ^ 32
    → m < 2 ^ 32
    → e.mask - bit_and e.mask m ≢ 0
    → 0 < level_bit k
    → log_at (unset_mask m e ∷ ps) k here line call ≡ (
        if has_bit e.mask (level_bit k) && not (has_bit m (level_bit k))
        then (log_always k here line call >>= λ a. ok (some a))
        else ok none)
log_at-unset_mask e ps m k here line call h h' left level =
    rw (log_at_lem (unset_mask m e ∷ ps) k here line call, gate)
  where
    n : ℕ
    n = level_bit k

    some_left : (e.mask - bit_and e.mask m == 0) ≡ false
    some_left = ground arith

    within : (digit n m == 1) ≡ true → bit_and (2 ^ n) m ≡ 2 ^ n
    within taken = ground (arith, bit_and-bit n m)

    apart : (digit n m == 1) ≡ false → bit_and (2 ^ n) m ≡ 0
    apart kept = ground (arith, bit_and-bit n m, digit_lt n m)

    gate :
        has_level (unset_mask m e ∷ ps) (2 ^ level_bit k)
        ≡ (has_bit e.mask (level_bit k) && not (has_bit m (level_bit k)))
    gate =
        rw (has_bit-digit e.mask k, has_bit-digit m k)
          (elim (Bool-cases (digit n m == 1)) [
            | inl taken ↦
                rw
                  (
                    has_level-unset_mask e ps m (2 ^ n) h h' (plain k level) (within taken),
                    some_left,
                    taken,
                  )
                  (ground arith)
            | inr kept ↦
                rw
                  (
                    has_level-unset_other e ps m (2 ^ n) h h' (plain k level) (apart kept),
                    some_left,
                    kept,
                    bit_and-bit n e.mask,
                  )
                  (ground (arith, digit_lt n e.mask, one-le-pow n 2))
          ])

-- What is logged where a mask is extended by some levels: those, and what it had.
pub log_at-extend_mask {ℓ} :
    {A : Type ℓ} (e : Entry) (ps : Logger) (m : ℕ) (k : Kind) (here : Option Bytes) (line : ℕ)
    (call : ℕ → Option Bytes → ℕ → Outcome A)
    → e.mask < 2 ^ 32
    → m < 2 ^ 32
    → m ≢ 0
    → 0 < level_bit k
    → log_at (extend_mask m e ∷ ps) k here line call ≡ (
        if has_bit e.mask (level_bit k) || has_bit m (level_bit k)
        then (log_always k here line call >>= λ a. ok (some a))
        else ok none)
log_at-extend_mask e ps m k here line call h h' some_level level =
    rw (log_at_lem (extend_mask m e ∷ ps) k here line call, gate)
  where
    gate :
        has_level (extend_mask m e ∷ ps) (2 ^ level_bit k)
        ≡ (has_bit e.mask (level_bit k) || has_bit m (level_bit k))
    gate = rw (
      has_level-extend_mask e ps m (2 ^ level_bit k) h h' some_level (plain k level),
      has_bit-test e.mask k,
      has_bit-test m k,
    )

usual :
    (e : Entry) (j : Kind) → has_level (set_mask 0 e ∷ []) (2 ^ level_bit j) ≡ ltb (level_bit j) 3
unfolding has_level
usual e error = refl
usual e warn = refl
usual e info = refl
usual e trace = refl
usual e debug = refl
usual e notice = refl

-- A logger without a parent that loses all its levels, whatever they were, logs errors, warnings and
-- information, and nothing else: an empty mask stands for the usual levels.
pub log_at-unset_all {ℓ} :
    {A : Type ℓ} (e : Entry) (m : ℕ) (k : Kind) (here : Option Bytes) (line : ℕ)
    (call : ℕ → Option Bytes → ℕ → Outcome A)
    → e.mask < 2 ^ 32
    → m < 2 ^ 32
    → bit_and e.mask m ≡ e.mask
    → log_at (unset_mask m e ∷ []) k here line call ≡ (
        if ltb (level_bit k) 3 then (log_always k here line call >>= λ a. ok (some a)) else ok none)
log_at-unset_all e m k here line call h h' all =
    rw (log_at_lem (unset_mask m e ∷ []) k here line call, gate k)
  where
    gate : (j : Kind) → has_level (unset_mask m e ∷ []) (2 ^ level_bit j) ≡ ltb (level_bit j) 3
    gate j = has_level-unset_all e [] m (2 ^ level_bit j) h h' all ∙ usual e j
