-- ===== src/Base/Word.antt =====
-- The widths and errno values of the platform that the model is read on: LP64 with the GNU C
-- library, where `size_t`, `ssize_t`, `long` and `uint_fast16_t` have 64 bits and `int` has 32.
use sancus_core.Base.Int.{ℤ, pos, negsuc}
use sancus_core.Base.Tests.{ltb, if◌then◌else◌}
use Prim.Native.Nat.{ℕ, ◌+◌, ◌-◌, ◌%◌, ◌^◌}

-- `size_t` and `uint_fast16_t` arithmetic wraps.
abbrev pub add64 : ℕ → ℕ → ℕ
add64 a b = (a + b) % 2 ^ 64

abbrev pub sub64 : ℕ → ℕ → ℕ
sub64 a b = (a + 2 ^ 64 - b) % 2 ^ 64

abbrev pub add32 : ℕ → ℕ → ℕ
add32 a b = (a + b) % 2 ^ 32

-- `(ssize_t)n` and `(int)n` of an unsigned value of the same width.
abbrev pub signed64 : ℕ → ℤ
signed64 n = if ltb n (2 ^ 63) then pos n else negsuc (2 ^ 64 - n - 1)

abbrev pub signed32 : ℕ → ℤ
signed32 n = if ltb n (2 ^ 31) then pos n else negsuc (2 ^ 32 - n - 1)

-- The negated errno values that the code returns.
abbrev pub einval : ℤ
einval = negsuc 21

abbrev pub enobufs : ℤ
enobufs = negsuc 104
