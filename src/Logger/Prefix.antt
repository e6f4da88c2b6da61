-- ===== src/Logger/Prefix.antt =====
-- The prefix that a logger's messages have.
use sancus_core.Base.{
  ℕ, ◌+◌, ◌^◌, ◌≤◌, ◌<◌, ◌≡◌, ◌∙◌, ap, false, ltb, arith, length, take-all, [], ◌∷◌, ◌++◌,
}
use sancus_core.Base.Int.{ℤ, pos}
use sancus_core.Base.Memory.{Bytes, slice}
use sancus_core.Base.Memory.Laws.{
  stored, store-ok, store-fault, length-stored, slice-stored, load_front,
}
use sancus_core.Base.Outcome.{ok, fault}
use sancus_core.Logger.{put_prefix}

-- A prefix that is not empty and shorter than the buffer is copied whole, with a NUL, and its
-- length is returned; nothing behind the buffer is written.
pub put_prefix_lem :
    (c : ℕ) (cs buf : Bytes)
    → length (c ∷ cs) < length buf
    → length buf < 2 ^ 32
    → (m : Bytes) × (put_prefix (c ∷ cs) buf (length buf) ≡ ok (pos (length (c ∷ cs)), m))
      × (slice 0 (length (c ∷ cs) + 1) m ≡ (c ∷ cs) ++ (0 ∷ []))
      × (length m ≡ length buf)
unfolding put_prefix
put_prefix_lem c cs buf h k = (
  stored copied n (0 ∷ []),
  rw
      (
        whole,
        load_front (c ∷ cs) n (omega arith),
        take-all n (c ∷ cs) (omega arith),
        store-ok buf 0 (c ∷ cs) (omega arith),
        store-ok copied n (0 ∷ []) last,
      )
      (ap (λ (r : ℤ). ok (r, stored copied n (0 ∷ []))) (ground arith)),
  slice-stored copied n (0 ∷ []) 0 n (n + 1) (omega arith) (omega arith) last
      ∙ ap (λ (t : Bytes). t ++ (0 ∷ []))
          (slice-stored buf 0 (c ∷ cs) 0 0 n (omega arith) (omega arith) (omega arith)),
  length-stored copied n (0 ∷ []) last ∙ same,
)
  where
    n : ℕ
    n = length (c ∷ cs)

    copied : Bytes
    copied = stored buf 0 (c ∷ cs)

    whole : ltb (length buf) n ≡ false
    whole = ground arith

    same : length copied ≡ length buf
    same = length-stored buf 0 (c ∷ cs) (omega arith)

    last : n + 1 ≤ length copied
    last = omega (arith, same)

-- A prefix exactly as long as the buffer is copied whole, and the NUL is written behind the buffer.
pub put_prefix-fault :
    (c : ℕ) (cs buf : Bytes)
    → length (c ∷ cs) ≡ length buf
    → put_prefix (c ∷ cs) buf (length buf) ≡ fault
unfolding put_prefix
put_prefix-fault c cs buf h = rw (
  whole,
  load_front (c ∷ cs) n (omega arith),
  take-all n (c ∷ cs) (omega arith),
  store-ok buf 0 (c ∷ cs) (omega arith),
  store-fault (stored buf 0 (c ∷ cs)) n (0 ∷ [])
      (omega (arith, length-stored buf 0 (c ∷ cs) (omega arith))),
)
  where
    n : ℕ
    n = length (c ∷ cs)

    whole : ltb (length buf) n ≡ false
    whole = ground arith
