-- ===== src/Strings/Copies.antt =====
-- A bounded copy of a string is terminated and in bounds.
use sancus_core.Base.{
  ℕ, zero, suc, ◌+◌, ◌-◌, ◌^◌, ◌≤◌, ◌<◌, ◌≡◌, ◌∙◌, refl, ap, ltb, if◌then◌else◌, arith, length,
  take, [], ◌∷◌, ◌++◌, min, length-take, lt→ltb,
}
use sancus_core.Base.Int.{pos}
use sancus_core.Base.Memory.{Bytes, slice}
use sancus_core.Base.Memory.Laws.{stored, store-ok, length-stored, slice-stored, load_front}
use sancus_core.Base.Outcome.{ok}
use sancus_core.Base.Word.{enobufs, signed64}
use sancus_core.Strings.{copy, copy_text, strncpy}

copy_lem :
    (dest src : Bytes) (n : ℕ)
    → n ≤ length src
    → n ≤ length dest
    → (m : Bytes) × (copy dest src n ≡ ok m) × (slice 0 n m ≡ take n src) × (length m ≡ length dest)
unfolding copy
copy_lem dest src zero h l = (dest, refl, refl, refl)
copy_lem dest src (suc n) h l = (
  stored dest 0 s,
  rw (lt→ltb 0 (suc n) (omega arith), load_front src (suc n) h, store-ok dest 0 s fit),
  slice-stored dest 0 s 0 0 (suc n) refl (omega (arith, size)) fit,
  length-stored dest 0 s fit,
)
  where
    s : Bytes
    s = take (suc n) src

    size : length s ≡ suc n
    size = omega (arith, length-take (suc n) src)

    fit : 0 + length s ≤ length dest
    fit = omega (arith, size)

-- In a destination that is not empty, `sancus_strncpy` leaves the first `n` bytes of the source, or
-- as many as fit, and a NUL behind them; it returns `n` where all fit, and -ENOBUFS where not. No
-- access leaves the destination.
pub strncpy_lem :
    (dest src : Bytes) (n : ℕ)
    → 0 < length dest
    → length dest < 2 ^ 63
    → n ≤ length src
    → (m : Bytes) × (strncpy dest (pos (length dest)) src n
        ≡ ok (if ltb n (length dest) then pos n else enobufs, m))
      × (slice 0 (min n (length dest - 1) + 1) m ≡ take (min n (length dest - 1)) src ++ (0 ∷ []))
      × (length m ≡ length dest)
unfolding strncpy copy_text
strncpy_lem dest src n p h l =
    let (m, e, f, g) = copy_lem dest src k (omega arith) (omega arith) in
    let fit : k + 1 ≤ length m = omega (arith, g) in
    (
      stored m k (0 ∷ []),
      rw (lt→ltb 0 (length dest) p, count, e, store-ok m k (0 ∷ []) fit, result),
      slice-stored m k (0 ∷ []) 0 k (k + 1) (omega arith) (omega arith) fit
          ∙ ap (λ (t : Bytes). t ++ (0 ∷ [])) f,
      length-stored m k (0 ∷ []) fit ∙ g,
    )
  where
    k : ℕ
    k = min n (length dest - 1)

    count : (if ltb n (length dest) then n else length dest - 1) ≡ k
    count = ground arith

    result :
        (if ltb n (length dest) then signed64 n else enobufs)
        ≡ (if ltb n (length dest) then pos n else enobufs)
    result = ground arith
