-- ===== src/Logger.antt =====
-- src/sancus/logger.c and include/sancus/logger.h: what a message becomes on its way to a back end. A
-- logger and its parents are a list, the logger first; NULL is the empty list.
pub mod Trim
pub mod Prefix
pub mod Dump
pub mod Dumps
pub mod Hexdump
pub mod Checks
pub mod Masks
pub mod Levels
pub mod Default
mod Tests
use Prim.Native.Nat.{bit_and}
use sancus_core.Base.{
  ℕ, zero, suc, ◌+◌, ◌-◌, ◌/◌, ◌%◌, Bool, true, false, not, ◌&&◌, ◌||◌, Option, none, some, List,
  [], ◌∷◌, ◌++◌, ◌==◌, ltb, leb, if◌then◌else◌, length, get_or, take, drop, replicate,
}
use sancus_core.Base.Int.{ℤ, pos, negsuc, ltb_ℤ, to_ℕ}
use sancus_core.Base.Memory.{Bytes, get_byte, load, store, slice}
use sancus_core.Base.Outcome.{Outcome, ok, fault, ◌>>=◌}
use sancus_core.Base.Word.{signed64}
use sancus_core.Buffer.{Buffer, append, stripchar, Printer, appendv, appendz, sparse, tail_size}
use sancus_core.Cstr.{hexa}

-- `sancus_logger_backend_f`: the level and three texts, each of them NULL or not, to its result.
abbrev pub Sink : Type 0
Sink = ℕ → Option Bytes → Option Bytes → Option Bytes → ℤ

-- `struct sancus_logger_backend`
pub record Backend : Type 0 where
  pub f : Option Sink

-- `struct sancus_logger` without its parent; a prefix is a string without its NUL.
pub record Entry : Type 0 where
  pub prefix : Option Bytes
  pub mask : ℕ
  pub prefixer : Option (Bytes → Outcome (ℤ × Bytes))
  pub backend : Option Backend

abbrev pub Logger : Type 0
Logger = List Entry

-- `SANCUS_LOG_NORMAL`: errors, warnings and information.
abbrev pub normal : ℕ
normal = 7

-- `sancus_logger_init2`, where the logger is not NULL.
unfoldable pub init2 : Logger → Option (Bytes → Outcome (ℤ × Bytes)) → ℕ → Option Bytes → Logger
init2 [] f mask prefix =
    record {
      prefix = prefix;
      mask = if mask == 0 then normal else mask;
      prefixer = f;
      backend = none;
    }
    ∷ []
init2 (p ∷ ps) f mask prefix =
    record { prefix = prefix; mask = mask; prefixer = f; backend = none } ∷ p ∷ ps

-- `sancus_logger_has_level`
unfoldable pub has_level : Logger → ℕ → Bool
has_level [] mask = (mask == 0) || not (bit_and mask 1 == 0) || not (bit_and mask normal == 0)
has_level (e ∷ ps) mask =
    let up = has_level ps mask in
    if (mask == 0) || not (bit_and mask 1 == 0)
    then true
    else if not (e.mask == 0)
    then not (bit_and mask e.mask == 0)
    else up

-- A back end with a function.
usable : Option Backend → Option Backend
usable none = none
usable (some b) = elim b.f [ none ↦ none | some f ↦ some b ]

-- `log_find_backend`
unfoldable pub find_backend : Logger → Backend → Backend
unfolding usable
find_backend [] fallback = fallback
find_backend (e ∷ ps) fallback =
    let up = find_backend ps fallback in elim (usable e.backend) [ none ↦ up | some b ↦ b ]

-- The switch of `log_buffer_trim`, and its loop: `left` bytes stand between `base` and `p`.
abbrev pub blank : ℕ → Bool
blank c = (c == 32) || (c == 9) || (c == 10)

unfoldable pub trim_from : Bytes → ℕ → ℕ → ℕ
trim_from m base zero = 0
trim_from m base (suc left) =
    let less = trim_from m base left in if blank (get_byte m (base + left)) then less else suc left

-- `log_buffer_trim`: the pointer, as the bytes that it leads to, and the length.
unfoldable pub trim : Option Buffer → Option Bytes × ℕ
trim none = (none, 0)
trim (some b) =
    let l = trim_from b.buf b.base b.len in
    (if l == 0 then none else some (slice b.base l b.buf), l)

-- `log_write`, for a back end that is found.
unfoldable pub log_write :
    Logger → Backend → ℕ → Option Buffer → Option Buffer → Option Buffer → Outcome ℤ
log_write log default level pbuf mbuf dbuf =
    if (trim pbuf).1 + (trim mbuf).1 + (trim dbuf).1 == 0
    then ok (pos 0)
    else elim (find_backend log default).f [
      | none ↦ fault
      | some f ↦ ok (f level ((trim pbuf).0) ((trim mbuf).0) ((trim dbuf).0))
    ]

-- The text between a prefix, a message and its data.
abbrev pub colon : Bytes
colon = 58 ∷ 32 ∷ []

-- The part of `log_ctx_prefix` for a logger with a prefix.
unfoldable pub put_prefix : Bytes → Bytes → ℕ → Outcome (ℤ × Bytes)
put_prefix [] buf size = ok (pos 0, buf)
put_prefix (c ∷ cs) buf size =
    let l = if ltb size (length (c ∷ cs)) then size - 1 else length (c ∷ cs) in
    do src ← load (c ∷ cs) 0 l; m ← store buf 0 src; m' ← store m l (0 ∷ []); ok (signed64 l, m')

-- `log_ctx_prefix`, in the `size` bytes of `buf`.
unfoldable pub log_ctx_prefix : Logger → Bytes → ℕ → Outcome (ℤ × Bytes)
log_ctx_prefix [] buf size = ok (pos 0, buf)
log_ctx_prefix (e ∷ ps) buf size =
    let up = log_ctx_prefix ps buf size in
    if size == 0 then ok (pos 0, buf) else elim e.prefixer [
      | some f ↦ f buf
      | none ↦ elim e.prefix [ some s ↦ put_prefix s buf size | none ↦ up ]
    ]

-- `log_ctx_prefix2`, which renders the prefix into the free bytes of a buffer.
unfoldable pub log_ctx_prefix2 : Logger → Buffer → Outcome (ℤ × Option Buffer)
log_ctx_prefix2 log b = do
  let end = b.base + b.len
  (rc, m) ← log_ctx_prefix log (drop end b.buf) (tail_size (some b))
  let b' = record b { buf = take end b.buf ++ m }
  if ltb_ℤ (pos 0) rc then (sparse (some b') (to_ℕ rc) >>= λ r. ok (rc, r.1)) else ok (rc, some b')

-- The source file context of `log_fmt`; `decimal` is `vsnprintf` of the format ":%u".
context : Option Buffer → Option Bytes → ℕ → (ℕ → Printer) → Outcome (Option Buffer)
context ob none line decimal = ok ob
context ob (some func) line decimal = if get_byte func 0 == 0 then ok ob else (do
  (r, named) ← appendz ob false (some func)
  (r', numbered) ← (if line == 0 then ok (pos 0, named) else appendv named false (decimal line))
  (r'', behind) ← append numbered false (some colon) (pos 2)
  ok behind)

-- `sancus_buffer_stripany(buf, "\n\t :")`
strip_any : Option Buffer → Outcome (Option Buffer)
strip_any ob = stripchar ob true (some (10 ∷ 9 ∷ 32 ∷ 58 ∷ 0 ∷ [])) (negsuc 0) >>= λ r. ok r.1

-- `log_fmt`; `fmt` is `none` where the format is NULL or empty.
unfoldable pub log_fmt :
    Option Buffer → Option Bytes → ℕ → (ℕ → Printer) → Option Printer → Outcome (ℤ × Option Buffer)
unfolding context strip_any
log_fmt ob func line decimal none = do
  named ← context ob func line decimal
  stripped ← strip_any named
  ok (pos 0, stripped)
log_fmt ob func line decimal (some print) = do
  named ← context ob func line decimal
  (rc, printed) ← appendv named true print
  if ltb_ℤ rc (pos 0)
      then ok (rc, printed)
      else (strip_any printed >>= λ stripped. ok (rc, stripped))

-- A `DECL_SANCUS_LBUFFER` buffer, whose initializer clears the array.
abbrev pub fresh : ℕ → Buffer
fresh n = record { buf = replicate n 0; base = 0; len = 0; size = n }

-- `sancus_logger__vprintf`, and `sancus_logger__printf`, which passes its arguments on.
unfoldable pub vprintf :
    Logger → Backend → ℕ → Option Bytes → ℕ → (ℕ → Printer) → Option Printer → Outcome ℤ
vprintf log default level func line decimal fmt = do
  (rc, pbuf) ← log_ctx_prefix2 log (fresh 128)
  if ltb_ℤ rc (pos 0) then ok rc else (do
    (rc', mbuf) ← log_fmt (some (fresh 256)) func line decimal fmt
    if ltb_ℤ rc' (pos 0) then ok rc' else log_write log default level pbuf mbuf none)

-- What `dump_enc` makes of a byte.
abbrev cec : Bytes
cec = 97 ∷ 98 ∷ 116 ∷ 110 ∷ 118 ∷ 102 ∷ 114 ∷ []

unfoldable pub encoded : ℕ → Bytes
encoded c =
    if ltb 31 c && ltb c 127
    then (if (c == 34) || (c == 92) then 92 ∷ c ∷ [] else c ∷ [])
    else if leb 7 c && leb c 13
    then 92 ∷ get_or cec (c - 7) 0 ∷ []
    else 92 ∷ 120 ∷ hexa (c / 16) ∷ hexa (c % 16) ∷ []

-- The loop of `dump_enc`, with the count so far; without a buffer it only counts.
unfoldable pub dump_from : Option Buffer → Bytes → ℕ → Outcome (ℤ × Option Buffer)
dump_from ob [] count = ok (pos count, ob)
dump_from none (c ∷ cs) count = dump_from none cs (count + length (encoded c))
dump_from (some b) (c ∷ cs) count = do
  (rc, ob) ← append (some b) false (some (encoded c)) (pos (length (encoded c)))
  if ltb_ℤ rc (pos 0) then ok (rc, ob) else dump_from ob cs (count + length (encoded c))

-- `dump_enc` of the bytes from `sp` on.
abbrev pub dump_enc : Option Buffer → Bytes → Outcome (ℤ × Option Buffer)
dump_enc ob s = dump_from ob s 0
