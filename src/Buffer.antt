-- ===== src/Buffer.antt =====
-- src/sancus/buffer.c and include/sancus/buffer.h: a window of stored data, `len` bytes from
-- `base` on, in a caller's array of `size` bytes. A `struct sancus_buffer *` that the code compares
-- with NULL is an option. A function that updates `*b` returns its result and the new struct.
pub mod Inv
pub mod Append
pub mod Chunk
pub mod Print
pub mod Strip
pub mod Match
pub mod Suffix
pub mod Runs
mod Tests
use sancus_core.Base.{
  ℕ, zero, suc, ◌+◌, ◌-◌, Bool, false, Option, none, some, [], ◌∷◌, ◌==◌, ltb, leb, ◌||◌,
  if◌then◌else◌,
}
use sancus_core.Base.Int.{ℤ, pos, ltb_ℤ, leb_ℤ, to_ℕ}
use sancus_core.Base.Memory.{Bytes, get_byte, load, store, strlen, bytes_eq}
use sancus_core.Base.Outcome.{Outcome, ok, fault, ◌>>=◌}
use sancus_core.Base.Word.{add64, sub64, signed64, einval, enobufs}

-- `struct sancus_buffer`; `buf` is the array that the pointer leads to.
pub record Buffer : Type 0 where
  pub buf : Bytes
  pub base : ℕ
  pub len : ℕ
  pub size : ℕ

-- `sancus_buffer_init`
unfoldable pub init : Option Buffer → Option Bytes → ℕ → ℤ × Option Buffer
init none buf size = (einval, none)
init (some b) none size = (einval, some b)
init (some b) (some m) size =
    if size == 0
    then (einval, some b)
    else (pos 0, some (record { buf = m; base = 0; len = 0; size = size }))

-- `sancus_buffer_base`, `_len`, `_size`
abbrev pub base_of : Option Buffer → ℕ
base_of none = 0
base_of (some b) = b.base

abbrev pub len_of : Option Buffer → ℕ
len_of none = 0
len_of (some b) = b.len

abbrev pub size_of : Option Buffer → ℕ
size_of none = 0
size_of (some b) = b.size

-- `sancus_buffer_tail_size`
abbrev pub tail_size : Option Buffer → ℕ
tail_size none = 0
tail_size (some b) = sub64 (sub64 b.size b.base) b.len

-- `sancus_buffer_ptr` and `sancus_buffer_tail_ptr`, as offsets into the array.
abbrev pub ptr : Option Buffer → Option ℕ
ptr none = none
ptr (some b) = some b.base

abbrev pub tail_ptr : Option Buffer → Option ℕ
tail_ptr none = none
tail_ptr (some b) = some (add64 b.base b.len)

-- The length that the code works with: `l`, or `strlen(s)` where it is negative; a NULL text with
-- bytes is refused. The same test opens `sancus_buffer_strip` and `sancus_buffer__append`.
pub data Arg : Type 0 where
  bad : Arg
  arg : Bytes → ℤ → Arg

pub text_arg : Option Bytes → ℤ → Outcome Arg
text_arg none l = ok (if ltb_ℤ (pos 0) l then bad else arg [] l)
text_arg (some s) l =
    if ltb_ℤ l (pos 0) then (strlen s >>= λ n. ok (arg s (signed64 n))) else ok (arg s l)

-- `*p == *q` for some `q` of the set.
abbrev pub one_of : ℕ → Bytes → Bool
one_of c [] = false
one_of c (q ∷ qs) = (c == q) || one_of c qs

-- The loop of `sancus_buffer__stripchar`: `left` bytes stand between `pe` and `p`.
count_strip : Bytes → ℕ → Bool → Bytes → ℕ → ℕ
count_strip m base many chars zero = 0
count_strip m base many chars (suc left) =
    let more = count_strip m base many chars left in
    if one_of (get_byte m (base + left)) chars then (if many then suc more else 1) else 0

-- `sancus_buffer__stripchar`
unfoldable pub stripchar : Option Buffer → Bool → Option Bytes → ℤ → Outcome (ℤ × Option Buffer)
unfolding count_strip
stripchar none many chars l = ok (einval, none)
stripchar (some b) many none l = ok (if ltb_ℤ (pos 0) l then (einval, some b) else (pos 0, some b))
stripchar (some b) many (some s) l = do
  n ← (if ltb_ℤ l (pos 0) then strlen s else ok (to_ℕ l))
  chars ← load s 0 n
  let count = count_strip b.buf b.base many chars b.len
  ok (signed64 count, some (record b { len = sub64 b.len count }))

-- The rest of `sancus_buffer_strip`, where `l > 0`: `lu` bytes of `s` against the end of the data.
strip_end : Option Buffer → Bytes → ℕ → Outcome (ℤ × Option Buffer)
strip_end none s lu = ok (pos 0, none)
strip_end (some b) s lu =
    if leb lu b.len
    then (do
      let p = add64 b.base (b.len - lu)
      tail ← load b.buf p lu
      want ← load s 0 lu
      if bytes_eq tail want
          then (do
            m ← store b.buf p (0 ∷ [])
            ok (pos lu, some (record b { buf = m; len = sub64 b.len lu })))
          else ok (pos 0, some b))
    else ok (pos 0, some b)

-- `sancus_buffer_strip`
unfoldable pub strip : Option Buffer → Option Bytes → ℤ → Outcome (ℤ × Option Buffer)
unfolding text_arg strip_end
strip ob os l = do
  a ← text_arg os l
  elim a [
    | bad ↦ ok (einval, ob)
    | arg s n ↦ if ltb_ℤ (pos 0) n then strip_end ob s (to_ℕ n) else ok (pos 0, ob)
  ]

-- `sancus_buffer_stripz`
pub stripz : Option Buffer → Option Bytes → Outcome (ℤ × Option Buffer)
unfolding strip
stripz ob none = ok (pos 0, ob)
stripz ob (some s) = strlen s >>= λ n. strip ob (some s) (signed64 n)

-- The NUL that `truncate` and `stripn` write behind the data, and the length that they return.
unfoldable pub terminate : Buffer → Outcome (ℤ × Buffer)
terminate b = do
  m ← store b.buf (add64 b.base b.len) (0 ∷ [])
  ok (signed64 b.len, record b { buf = m })

-- The new length and base of `sancus_buffer_truncate`, and of `sancus_buffer_stripn`.
cut_to : Buffer → ℕ → Buffer
cut_to b n =
    let len = if ltb n b.len then n else b.len in
    record b { len = len; base = if len == 0 then 0 else b.base }

cut_by : Buffer → ℕ → Buffer
cut_by b n =
    if ltb n b.len then record b { len = sub64 b.len n } else record b { base = 0; len = 0 }

-- `sancus_buffer_truncate`
unfoldable pub truncate : Buffer → ℕ → Outcome (ℤ × Buffer)
unfolding cut_to
truncate b n = terminate (cut_to b n)

-- `sancus_buffer_stripn`
unfoldable pub stripn : Buffer → ℕ → Outcome (ℤ × Buffer)
unfolding cut_by
stripn b n = terminate (cut_by b n)

-- `sancus_buffer_reset`
abbrev pub reset : Buffer → Outcome (ℤ × Buffer)
reset b = truncate b 0

-- `sancus_buffer_sparse`
unfoldable pub sparse : Option Buffer → ℕ → Outcome (ℤ × Option Buffer)
sparse none n = if ltb 0 n then ok (einval, none) else fault
sparse (some b) n =
    if ltb (tail_size (some b)) n
    then ok (einval, some b)
    else ok (signed64 n, some (record b { len = add64 b.len n }))

-- `memcpy(buf, s, l); b->len += l;`
copy_in : Option Buffer → Bytes → ℕ → Outcome (ℤ × Option Buffer)
copy_in none s n = fault
copy_in (some b) s n = do
  src ← load s 0 n
  m ← store b.buf (add64 b.base b.len) src
  ok (pos n, some (record b { buf = m; len = add64 b.len n }))

-- The length that `sancus_buffer__append` settles on, or its error.
fit : Option Buffer → Bool → ℤ → ℤ
fit none truncate l = einval
fit (some b) truncate l =
    if leb_ℤ l (signed64 (tail_size (some b)))
    then l
    else if truncate
    then signed64 (tail_size (some b))
    else enobufs

-- `sancus_buffer__append`
unfoldable pub append : Option Buffer → Bool → Option Bytes → ℤ → Outcome (ℤ × Option Buffer)
unfolding text_arg fit copy_in
append ob truncate os l = do
  a ← text_arg os l
  elim a [
    | bad ↦ ok (einval, ob)
    | arg s n ↦
        let l' = fit ob truncate n in
        if ltb_ℤ (pos 0) l' then copy_in ob s (to_ℕ l') else ok (l', ob)
  ]

-- `sancus_buffer__appendz`
pub appendz : Option Buffer → Bool → Option Bytes → Outcome (ℤ × Option Buffer)
unfolding append
appendz ob truncate none = ok (pos 0, ob)
appendz ob truncate (some s) = strlen s >>= λ n. append ob truncate (some s) (signed64 n)

-- `vsnprintf` of the C library at one format and its arguments: the size of the space it is given
-- to the number that it returns and the bytes that it writes from the start of that space.
abbrev pub Printer : Type 0
Printer = ℕ → ℤ × Bytes

-- What `sancus_buffer__appendv` returns for a `vsnprintf` that returned `n`, with its last write.
settle : Buffer → Bool → ℕ → ℤ → Outcome (ℤ × Buffer)
settle b truncate l n =
    if leb_ℤ n (pos 0) || ltb_ℤ n (pos l)
    then ok (n, b)
    else if truncate
    then (do
      m ← store b.buf (add64 (add64 b.base b.len) (l - 1)) (0 ∷ [])
      ok (pos (l - 1), record b { buf = m }))
    else ok (enobufs, b)

-- `if (n > 0) b->len += n;`
grow : Buffer → ℤ → Buffer
grow b n = if ltb_ℤ (pos 0) n then record b { len = add64 b.len (to_ℕ n) } else b

-- `sancus_buffer__appendv` where `l > 0`.
pub print_in : Buffer → Bool → Printer → ℕ → Outcome (ℤ × Option Buffer)
print_in b truncate print l = do
  m ← store b.buf (add64 b.base b.len) (print l).1
  (n, b') ← settle (record b { buf = m }) truncate l (print l).0
  ok (n, some (grow b' n))

-- `sancus_buffer__appendv`, and `sancus_buffer__appendf`, which passes its arguments on.
unfoldable pub appendv : Option Buffer → Bool → Printer → Outcome (ℤ × Option Buffer)
unfolding settle grow print_in
appendv none truncate print = ok (enobufs, none)
appendv (some b) truncate print =
    let l = signed64 (tail_size (some b)) in
    if ltb_ℤ (pos 0) l then print_in b truncate print (to_ℕ l) else ok (enobufs, some b)
