-- ===== src/Strings.antt =====
-- include/sancus/string.h: bounded copies. `dest` and `src` are what the pointers lead to.
pub mod Copies
mod Tests
use sancus_core.Base.{
  ℕ, ◌+◌, ◌-◌, ◌^◌, Bool, true, false, Option, none, some, [], ◌∷◌, ◌==◌, ltb, if◌then◌else◌,
}
use sancus_core.Base.Int.{ℤ, pos, negsuc, ltb_ℤ, to_ℕ}
use sancus_core.Base.Memory.{Bytes, load, store, strlen, get_byte}
use sancus_core.Base.Outcome.{Outcome, ok, ◌>>=◌}
use sancus_core.Base.Word.{signed64, enobufs}

-- `if (n > 0) memcpy(dest, src, n);`
unfoldable pub copy : Bytes → Bytes → ℕ → Outcome Bytes
copy dest src n = if ltb 0 n then (load src 0 n >>= λ s. store dest 0 s) else ok dest

-- `(size_t)` of a signed size.
abbrev pub to_size : ℤ → ℕ
to_size (pos n) = n
to_size (negsuc n) = 2 ^ 64 - 1 - n

-- `sancus_memcpy`
unfoldable pub memcpy : Bytes → ℤ → Bytes → ℕ → Outcome (ℤ × Bytes)
memcpy dest dest_size src n =
    if ltb_ℤ dest_size (signed64 n)
    then (copy dest src (to_size dest_size) >>= λ m. ok (enobufs, m))
    else (copy dest src n >>= λ m. ok (signed64 n, m))

-- `sancus_strncpy`; the part where `dest_size > 0`.
unfoldable pub copy_text : Bytes → ℕ → Bytes → ℕ → Outcome (ℤ × Bytes)
copy_text dest sz src n =
    let k = if ltb n sz then n else sz - 1 in
    do
      m ← copy dest src k
      m' ← store m k (0 ∷ [])
      ok (if ltb n sz then signed64 n else enobufs, m')

unfoldable pub strncpy : Bytes → ℤ → Bytes → ℕ → Outcome (ℤ × Bytes)
strncpy dest dest_size src n =
    if ltb_ℤ (pos 0) dest_size then copy_text dest (to_ℕ dest_size) src n else ok (enobufs, dest)

-- `sancus_strcpy`
unfoldable pub strcpy : Bytes → ℤ → Option Bytes → Outcome (ℤ × Bytes)
strcpy dest dest_size none = strncpy dest dest_size [] 0
strcpy dest dest_size (some src) =
    if get_byte src 0 == 0
    then strncpy dest dest_size src 0
    else (strlen src >>= λ n. strncpy dest dest_size src n)
