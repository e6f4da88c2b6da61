-- ===== src/Legacy.antt =====
-- src/sancus/buffer_legacy.c and include/sancus/buffer_legacy.h: the older buffer, whose struct has
-- the fields of the newer one. It is read into at its end and skipped at its start.
pub mod Moves
mod Tests
use sancus_core.Base.{
  ℕ, zero, suc, ◌+◌, ◌-◌, ◌/◌, ◌%◌, ◌^◌, Bool, true, false, ◌&&◌, ◌||◌, Option, none, some, List,
  [], ◌==◌, ltb, leb, if◌then◌else◌, take,
}
use sancus_core.Base.Int.{ℤ, pos, negsuc}
use sancus_core.Base.Memory.{Bytes, load, store}
use sancus_core.Base.Outcome.{Outcome, ok, assert, ◌>>=◌, ◌>>◌}
use sancus_core.Base.Word.{add64, sub64}
use sancus_core.Buffer.{Buffer}
use sancus_core.Fd.{Answer}
use sancus_core.Fd

-- `sancus_buffer_bind`
unfoldable pub bind : Option Bytes → ℕ → Outcome Buffer
bind none size =
    assert (size == 0) >> ok (record { buf = []; base = 0; len = 0; size = size % 2 ^ 32 })
bind (some m) size =
    assert (ltb 0 size) >> ok (record { buf = m; base = 0; len = 0; size = size % 2 ^ 32 })

-- `sancus_buffer_available`
abbrev pub available : Buffer → ℕ
available b = sub64 (sub64 b.size b.base) b.len

-- `sancus_buffer_read`; the kernel answers the calls of `read`, and delivers the first of the bytes
-- that have arrived. `none` means that it has not answered.
unfoldable pub read : Buffer → List Answer → Bytes → Option (Outcome (ℤ × Buffer))
read b answers arrived = elim (Fd.read answers) [
  | none ↦ none
  | some (negsuc e, left) ↦ some (ok (negsuc e, b))
  | some (pos n, left) ↦ some (
      store b.buf (add64 b.base b.len) (take n arrived) >>= λ m.
      ok (pos n, record b { buf = m; len = add64 b.len (n % 2 ^ 32) }))
]

-- `sancus_buffer_rebase`
unfoldable pub rebase : Buffer → Outcome Buffer
rebase b =
    if ltb 0 b.base
    then (if ltb 0 b.len
        then (do
          s ← load b.buf b.base b.len
          m ← store b.buf 0 s
          ok (record b { buf = m; base = 0 }))
        else ok (record b { base = 0 }))
    else ok b

-- The end of `sancus_buffer_skip`.
unfoldable pub settle : Buffer → Outcome (ℕ × Buffer)
settle b =
    if ltb (available b) (b.size / 10)
    then (rebase b >>= λ b'. ok (available b', b'))
    else ok (available b, b)

-- `sancus_buffer_reset` and `sancus_buffer_skip`
abbrev pub reset : Buffer → Buffer
reset b = record b { base = 0; len = 0 }

unfoldable pub skip : Buffer → ℕ → Outcome (ℕ × Buffer)
unfolding settle
skip b step =
    if leb b.len step
    then ok (b.size, reset b)
    else if ltb 0 step
    then settle (record b { base = add64 b.base step; len = sub64 b.len step })
    else settle b
