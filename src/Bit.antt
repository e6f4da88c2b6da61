-- ===== src/Bit.antt =====
-- include/sancus/bit.h: fields and flags of a word. An `unsigned long` has 64 bits and an `unsigned`
-- has 32; a shift by the width of the word or more is undefined, and the number of a bit is below it.
pub mod Fields
mod Tests
use Prim.Native.Nat.{bit_and, bit_or}
use sancus_core.Base.{ℕ, ◌-◌, ◌*◌, ◌/◌, ◌%◌, ◌^◌, Bool, not, ◌==◌}

-- `x << shift` of an `unsigned long`, and `BIT`.
abbrev pub shl : ℕ → ℕ → ℕ
shl x shift = x * 2 ^ shift % 2 ^ 64

abbrev pub bit : ℕ → ℕ
bit n = shl 1 n

-- `sancus_bit_cms`
unfoldable pub cms : ℕ → ℕ → ℕ → ℕ → ℕ
cms old value mask shift =
    bit_or (shl (bit_and value mask) shift) (old - bit_and old (shl mask shift))

-- `sancus_bit_unmask`, whose mask is an `unsigned`.
unfoldable pub unmask : ℕ → ℕ → ℕ → ℕ
unmask value mask shift = bit_and (value / 2 ^ shift) (mask % 2 ^ 32)

-- `sancus_bit_has_bit` and `sancus_bit_has_flag`, as conditions; the flag is an `unsigned`.
unfoldable pub has_bit : ℕ → ℕ → Bool
has_bit mask n = not (bit_and mask (bit n) == 0)

unfoldable pub has_flag : ℕ → ℕ → Bool
has_flag flags flag = bit_and flags flag == flag
