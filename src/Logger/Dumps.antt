-- ===== src/Logger/Dumps.antt =====
-- The dumps of src/sancus/logger.c: data behind a message, in quotes and cut to the buffer.
pub mod Blocks
use sancus_core.Base.{
  ℕ, zero, suc, ◌-◌, ◌/◌, Bool, true, false, not, ◌&&◌, Option, none, some, [], ◌∷◌, ◌==◌, ltb,
  if◌then◌else◌, length, take, drop,
}
use sancus_core.Base.Int.{ℤ, pos, negsuc, ltb_ℤ, to_ℕ}
use sancus_core.Base.Memory.{Bytes, load}
use sancus_core.Base.Outcome.{Outcome, ok, fault, ◌>>=◌}
use sancus_core.Base.Word.{einval, sub64}
use sancus_core.Buffer.{Buffer, append, Printer, appendv, stripn, tail_size}
use sancus_core.Logger.{Logger, Backend, log_ctx_prefix2, log_fmt, log_write, fresh, dump_enc}

-- `min_suffix` and `max_suffix`
abbrev pub min_suffix : ℕ
min_suffix = 10

abbrev pub max_suffix : ℕ
max_suffix = 13

-- How many of `len` bytes fit in the worst case.
abbrev pub block : Option Buffer → ℕ → ℕ
block ob len = let most = sub64 (tail_size ob) min_suffix / 4 in if ltb most len then most else len

-- The loop over the data: the buffer, and what is left of the data; `none` is the end of the fuel.
unfoldable pub dump_blocks : ℕ → Option Buffer → Bytes → Outcome (Option (Option Buffer × Bytes))
dump_blocks fuel ob [] = ok (some (ob, []))
dump_blocks zero ob (c ∷ s) = ok none
dump_blocks (suc fuel) ob (c ∷ s) =
    let again : Option Buffer → Bytes → Outcome (Option (Option Buffer × Bytes)) =
      λ ob' s'. dump_blocks fuel ob' s' in
    let n : ℕ = block ob (length (c ∷ s)) in
    if n == 0
    then ok (some (ob, c ∷ s))
    else (dump_enc ob (take n (c ∷ s)) >>= λ r. again (r.1) (drop n (c ∷ s)))

-- The loop behind `truncate`, over the `n` bytes that were encoded, from the last one on.
unfoldable pub step_back : ℕ → Bytes → Option Buffer → Outcome (Option Buffer)
step_back zero s ob = ok ob
step_back (suc n) s none = fault
step_back (suc n) s (some b) =
    let again : Option Buffer → Outcome (Option Buffer) = λ ob'. step_back n s ob' in
    if ltb (tail_size (some b)) max_suffix
    then (dump_enc none (take 1 (drop n s)) >>= λ c.
        stripn b (to_ℕ (c.0)) >>= λ r. again (some (r.1)))
    else ok (some b)

-- From `done` on.
unfoldable pub finish :
    Logger → Backend → ℕ → Option Buffer → Option Buffer → Printer → Option Buffer → Outcome ℤ
finish log default level pbuf mbuf suffix ob = do
  (rc, closed) ← appendv ob false suffix
  if ltb_ℤ rc (pos 0) then ok rc else log_write log default level pbuf mbuf closed

-- What follows the loop over the data.
unfoldable pub ellipsis :
    (Option Buffer → Outcome ℤ) → Bytes → Option (Option Buffer × Bytes) → Outcome (Option ℤ)
unfolding step_back
ellipsis close s none = ok none
ellipsis close s (some (ob, [])) = close ob >>= λ rc. ok (some rc)
ellipsis close s (some (ob, c ∷ left)) = do
  cut ← step_back (length s - length (c ∷ left)) s ob
  (rc, dotted) ← append cut false (some (46 ∷ 46 ∷ 46 ∷ [])) (pos 3)
  if ltb_ℤ rc (pos 0) then ok (some rc) else (close dotted >>= λ rc'. ok (some rc'))

-- The data, quoted; `suffix` is `vsnprintf` of the format "\" (%zu)" and the length.
unfoldable pub quote : (Option Buffer → Outcome ℤ) → Bytes → Outcome (Option ℤ)
unfolding ellipsis dump_blocks
quote close s = do
  (rc, quoted) ← append (some (fresh 256)) false (some (34 ∷ [])) (pos 1)
  if ltb_ℤ rc (pos 0)
      then ok (some rc)
      else (dump_blocks (length s) quoted s >>= λ r. ellipsis close s r)

-- `sancus_logger__vdumpf`, and `sancus_logger__dumpf`, which passes its arguments on.
unfoldable pub vdumpf :
    Logger
    → Backend
    → ℕ
    → Option Bytes
    → ℕ
    → (ℕ → Printer)
    → Option Printer
    → (ℕ → Printer)
    → Bytes
    → Outcome (Option ℤ)
unfolding quote finish
vdumpf log default level func line decimal fmt suffix s = do
  (rc, pbuf) ← log_ctx_prefix2 log (fresh 128)
  if ltb_ℤ rc (pos 0) then ok (some rc) else (do
    (rc', mbuf) ← log_fmt (some (fresh 256)) func line decimal fmt
    if ltb_ℤ rc' (pos 0)
        then ok (some rc')
        else quote (λ ob. finish log default level pbuf mbuf (suffix (length s)) ob) s)

-- The guard of `sancus_logger__vdumpf` on `len` bytes at `data`.
unfoldable pub vdumpf_at :
    Logger
    → Backend
    → ℕ
    → Option Bytes
    → ℕ
    → (ℕ → Printer)
    → Option Printer
    → (ℕ → Printer)
    → Option Bytes
    → ℕ
    → Outcome (Option ℤ)
unfolding vdumpf
vdumpf_at log default level func line decimal fmt suffix none zero =
    vdumpf log default level func line decimal fmt suffix []
vdumpf_at log default level func line decimal fmt suffix none (suc len) = ok (some einval)
vdumpf_at log default level func line decimal fmt suffix (some m) len =
    load m 0 len >>= λ s. vdumpf log default level func line decimal fmt suffix s
