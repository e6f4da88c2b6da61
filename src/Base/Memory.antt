-- ===== src/Base/Memory.antt =====
-- Memory objects as lists of bytes. An access outside the object is a fault.
pub mod Laws
use sancus_core.Base.Lists.{length, take, drop, get_or}
use sancus_core.Base.Outcome.{Outcome, ok, fault, ◌>>=◌}
use sancus_core.Base.Tests.{leb, ◌==◌, if◌then◌else◌}
use Prim.Native.Nat.{ℕ, ◌+◌}
use mathlib.Core.Bool.{Bool, true, false, ◌&&◌}
use mathlib.Core.List.{List, [], ◌∷◌, ◌++◌}

abbrev pub Bytes : Type 0
Bytes = List ℕ

-- `n` bytes from offset `off` on.
abbrev pub slice : ℕ → ℕ → Bytes → Bytes
slice off n m = take n (drop off m)

-- The byte at an offset inside the object.
abbrev pub get_byte : Bytes → ℕ → ℕ
get_byte m i = get_or m i 0

unfoldable pub load : Bytes → ℕ → ℕ → Outcome Bytes
load m off n = if leb (off + n) (length m) then ok (slice off n m) else fault

-- `memcpy(m + off, s, length s)`, and a single byte or a `memset` as a short list.
unfoldable pub store : Bytes → ℕ → Bytes → Outcome Bytes
store m off s =
    if leb (off + length s) (length m)
    then ok (take off m ++ (s ++ drop (off + length s) m))
    else fault

-- `memcmp(a, b, n) == 0` on the compared bytes.
abbrev pub bytes_eq : Bytes → Bytes → Bool
bytes_eq [] [] = true
bytes_eq [] (y ∷ ys) = false
bytes_eq (x ∷ xs) [] = false
bytes_eq (x ∷ xs) (y ∷ ys) = (x == y) && bytes_eq xs ys

-- `strlen`: the bytes before the first NUL, a fault where the object has none.
unfoldable pub strlen : Bytes → Outcome ℕ
strlen [] = fault
strlen (c ∷ s) = if c == 0 then ok 0 else (strlen s >>= λ n. ok (n + 1))
