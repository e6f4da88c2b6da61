-- ===== src/Logger/Hexdump.antt =====
-- The hexadecimal dumps of src/sancus/logger.c.
pub mod Rows
use sancus_core.Base.{
  ℕ, zero, suc, ◌+◌, ◌-◌, Bool, true, false, not, ◌&&◌, ◌||◌, Option, none, some, List, [], ◌∷◌,
  ◌++◌, ◌==◌, ltb, if◌then◌else◌, length, take, drop,
}
use sancus_core.Base.Int.{ℤ, pos, ltb_ℤ}
use sancus_core.Base.Memory.{Bytes, load}
use sancus_core.Base.Outcome.{Outcome, ok, ◌>>=◌}
use sancus_core.Base.Word.{einval}
use sancus_core.Buffer.{Buffer, append, Printer, appendv, reset}
use sancus_core.Logger.{Logger, Backend, log_ctx_prefix2, log_fmt, log_write, fresh, vprintf}

-- `vsnprintf` of the formats "%08x " and " %02x".
pub record Formats : Type 0 where
  pub offset : ℕ → Printer
  pub byte : ℕ → Printer

-- The bytes of a row.
unfoldable pub put_bytes : Formats → Option Buffer → Bytes → Outcome (Option Buffer)
put_bytes formats ob [] = ok ob
put_bytes formats ob (c ∷ s) =
    let rest : Option Buffer → Outcome (Option Buffer) = λ ob'. put_bytes formats ob' s in
    appendv ob false (formats.byte c) >>= λ r. rest (r.1)

-- "align", for the bytes that a row lacks.
unfoldable pub align_row : ℕ → Option Buffer → Outcome (Option Buffer)
align_row zero ob = ok ob
align_row (suc n) ob =
    let rest : Option Buffer → Outcome (Option Buffer) = λ ob'. align_row n ob' in
    append ob false (some (32 ∷ 32 ∷ 32 ∷ [])) (pos 3) >>= λ r. rest (r.1)

-- "ascii"
abbrev pub shown : ℕ → ℕ
shown c = if ltb c 32 || ltb 126 c then 46 else c

unfoldable pub put_ascii : Option Buffer → Bytes → Outcome (Option Buffer)
put_ascii ob [] = ok ob
put_ascii ob (c ∷ s) =
    let rest : Option Buffer → Outcome (Option Buffer) = λ ob'. put_ascii ob' s in
    append ob false (some (shown c ∷ [])) (pos 1) >>= λ r. rest (r.1)

-- The first part of a row, with its offset where there is a width.
unfoldable pub put_hexa : Formats → ℕ → ℕ → Option Buffer → Bytes → Outcome (Option Buffer)
unfolding put_bytes align_row
put_hexa formats zero off ob s = put_bytes formats ob s
put_hexa formats (suc width) off ob s = do
  (rc, headed) ← appendv ob false (formats.offset off)
  filled ← put_bytes formats headed s
  align_row (suc width - length s) filled

unfoldable pub row : Formats → ℕ → ℕ → Option Buffer → Bytes → Outcome (Option Buffer)
unfolding put_hexa put_ascii
row formats width off ob s = do
  hexa ← put_hexa formats width off ob s
  (rc, opened) ← append hexa false (some (32 ∷ 124 ∷ [])) (pos 2)
  shown ← put_ascii opened s
  (rc', closed) ← append shown false (some (124 ∷ [])) (pos 1)
  ok closed

-- How many of `len` bytes the next row takes.
abbrev pub taken : ℕ → ℕ → ℕ
taken zero len = len
taken (suc width) len = if ltb (suc width) len then suc width else len

-- `sancus_buffer_reset(buf)`
abbrev pub cleared : Option Buffer → Outcome (Option Buffer)
cleared none = ok none
cleared (some b) = reset b >>= λ r. ok (some (r.1))

-- The loop over the rows; `none` is the end of the fuel.
unfoldable pub rows :
    (Option Buffer → Outcome ℤ)
    → Formats
    → ℕ
    → ℕ
    → ℕ
    → Option Buffer
    → Bytes
    → ℤ
    → Outcome (Option ℤ)
unfolding row
rows write formats width fuel off ob [] rc = ok (some rc)
rows write formats width zero off ob (c ∷ s) rc = ok none
rows write formats width (suc fuel) off ob (c ∷ s) rc =
    let n : ℕ = taken width (length (c ∷ s)) in
    let again : Option Buffer → ℤ → Outcome (Option ℤ) =
      λ ob' rc'. rows write formats width fuel (off + n) ob' (drop n (c ∷ s)) rc' in
    row formats width off ob (take n (c ∷ s)) >>= λ full. write full >>= λ rc'.
    if ltb_ℤ rc' (pos 0) then ok (some rc') else (cleared full >>= λ empty. again empty rc')

-- What follows the prefix and the message.
unfoldable pub dump_rows :
    (Option Buffer → Outcome ℤ) → Formats → ℕ → Bytes → ℤ → Outcome (Option ℤ)
unfolding rows
dump_rows write formats width [] rc = write none >>= λ rc'. ok (some rc')
dump_rows write formats width (c ∷ s) rc =
    rows write formats width (length (c ∷ s)) 0 (some (fresh 256)) (c ∷ s) rc

-- `sancus_logger__vhexdumpf`, and `sancus_logger__hexdumpf`, which passes its arguments on.
unfoldable pub vhexdumpf :
    Logger
    → Backend
    → ℕ
    → Option Bytes
    → ℕ
    → (ℕ → Printer)
    → Option Printer
    → Formats
    → ℕ
    → Bytes
    → Outcome (Option ℤ)
unfolding dump_rows
vhexdumpf log default level func line decimal fmt formats width s = do
  (rc, pbuf) ← log_ctx_prefix2 log (fresh 128)
  if ltb_ℤ rc (pos 0) then ok (some rc) else (do
    (rc', mbuf) ← log_fmt (some (fresh 256)) func line decimal fmt
    if ltb_ℤ rc' (pos 0)
        then ok (some rc')
        else dump_rows (λ ob. log_write log default level pbuf mbuf ob) formats width s rc')

-- The guard of `sancus_logger__vhexdumpf` on `len` bytes at `data`.
unfoldable pub vhexdumpf_at :
    Logger
    → Backend
    → ℕ
    → Option Bytes
    → ℕ
    → (ℕ → Printer)
    → Option Printer
    → Formats
    → ℕ
    → Option Bytes
    → ℕ
    → Outcome (Option ℤ)
unfolding vhexdumpf
vhexdumpf_at log default level func line decimal fmt formats width none zero =
    vhexdumpf log default level func line decimal fmt formats width []
vhexdumpf_at log default level func line decimal fmt formats width none (suc len) = ok (some einval)
vhexdumpf_at log default level func line decimal fmt formats width (some m) len =
    load m 0 len >>= λ s. vhexdumpf log default level func line decimal fmt formats width s
