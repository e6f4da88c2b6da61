-- ===== src/Cstr.antt =====
-- src/sancus/fmt_cstr.c: bytes as the text of a C string literal. `buf` is what the pointer leads
-- to; an access outside it is a fault.
pub mod Escape
pub mod Fits
pub mod Decode
mod Tests
use sancus_core.Base.{
  ℕ, zero, suc, ◌+◌, ◌-◌, ◌*◌, ◌/◌, ◌%◌, ◌≤◌, Bool, true, false, [], ◌∷◌, ◌++◌, ltb, leb, ◌==◌,
  ◌||◌, ◌&&◌, if◌then◌else◌, get_or,
}
use sancus_core.Base.Memory.{Bytes, load, store, get_byte}
use sancus_core.Base.Outcome.{Outcome, ok, assert, ◌>>=◌, ◌>>◌}

-- The letters of the escapes: the first row of `ascii`, and its second.
abbrev letters : Bytes
letters = 48 ∷ 0 ∷ 0 ∷ 0 ∷ 0 ∷ 0 ∷ 0 ∷ 97 ∷ 98 ∷ 116 ∷ 110 ∷ 118 ∷ 102 ∷ 114 ∷ []

-- `ascii[c]`, for `c` below 128: a letter below 32, the character itself from 32 to 126, 0 at 127.
abbrev pub ascii : ℕ → ℕ
ascii c = if ltb c 32 then get_or letters c 0 else if ltb c 127 then c else 0

-- `hexa[n]`
abbrev pub hexa : ℕ → ℕ
hexa n = if ltb n 10 then 48 + n else 87 + n

-- The character `e` of the loop, and how many bytes a byte becomes.
unfoldable pub entry : ℕ → ℕ
entry c = if leb 128 c then 0 else ascii c

unfoldable pub width : ℕ → ℕ
width c =
    let e = entry c in if e == 0 then 4 else if ltb c 32 || (e == 34) || (e == 92) then 2 else 1

-- What the switch writes for a width.
unfoldable pub emitted : ℕ → ℕ → Bytes
emitted c l =
    if l == 2
    then 92 ∷ entry c ∷ []
    else if l == 1
    then entry c ∷ []
    else if l == 4
    then 92 ∷ 120 ∷ hexa (c / 16) ∷ hexa (c % 16) ∷ []
    else []

-- The loop: the bytes left to read, the offset to write at, the room left and the length so far.
-- The NUL stands where it stops.
unfoldable pub fill : Bytes → Bytes → ℕ → ℕ → ℕ → Outcome (ℕ × Bytes)
fill [] m off buf_len len = store m off (0 ∷ []) >>= λ m'. ok (len, m')
fill (c ∷ cs) m off buf_len len =
    if leb buf_len (width c)
    then (store m off (0 ∷ []) >>= λ m'. ok (len, m'))
    else (store m off (emitted c (width c)) >>= λ m'.
        fill cs m' (off + width c) (buf_len - width c) (len + width c))

-- `sancus_fmt_ascii_cstr`
unfoldable pub fmt_ascii_cstr : Bytes → ℕ → Bytes → ℕ → Outcome (ℕ × Bytes)
fmt_ascii_cstr buf buf_len text size = do
  assert (ltb 0 buf_len)
  assert (ltb 0 size)
  s ← load text 0 size
  fill s buf 0 buf_len 0
