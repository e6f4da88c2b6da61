-- ===== src/Alloc/Blocks.antt =====
-- A cleared block is new, zero and the caller's own, until it is given back.
use sancus_core.Base.{
  ℕ, ◌+◌, ◌<◌, ◌≡◌, ◌≢◌, ◌⊎◌, inl, inr, refl, sym, ap, ◌∙◌, true, false, none, some, [], ◌∷◌,
  append-nil, ◌==◌, arith, if◌then◌else◌, length, replicate, length-replicate, drop-all,
}
use sancus_core.Base.Memory.{Bytes, store}
use sancus_core.Base.Memory.Laws.{store-ok}
use sancus_core.Base.Outcome.{ok}
use sancus_core.Alloc.{Heap, Realloc, State, block_at, clear, zalloc, free}

-- The memory without a block.
abbrev pub without : Heap → ℕ → Heap
without [] p = []
without ((q, m) ∷ h) p = if q == p then h else (q, m) ∷ without h p

-- What a `realloc` promises: from NULL and a size that is not 0 it makes a new block of that size
-- in front of the memory, or fails and does nothing; with size 0 it gives a block back.
pub record Allocates (f : Realloc) : Type 0 where
  pub gives :
      (h : Heap) (n : ℕ)
      → 0 < n
      → (f h 0 n ≡ (0, h))
        ⊎ ((p : ℕ) × (m : Bytes) × (f h 0 n ≡ (p, (p, m) ∷ h))
            × (0 < p)
            × (block_at h p ≡ none)
            × (length m ≡ n))
  pub takes :
      (h : Heap) (p : ℕ) (m : Bytes) → 0 < p → block_at h p ≡ some m → (f h p 0).1 ≡ without h p

-- Storing as many bytes as there are.
store_all : (m s : Bytes) → length m ≡ length s → store m 0 s ≡ ok s
store_all m s h =
    store-ok m 0 s (omega arith) ∙ rw (drop-all (0 + length s) m (omega arith), append-nil s) refl

abbrev pub with_heap : Realloc → Heap → State
with_heap f h = record { current = f; heap = h }

module _ (f : Realloc) (allocates : Allocates f) (h : Heap) (n : ℕ) (some_bytes : 0 < n) where
  -- `sancus_zalloc` of a size that is not 0 fails and does nothing, or returns a block that was not in
  -- use, all of its bytes 0, and leaves all others as they were; `sancus_free` of it leaves
  -- the memory as it was, and NULL, on a `realloc` that does what it promises.
  pub zalloc-free :
      (zalloc n (with_heap f h) ≡ ok (0, with_heap f h))
      ⊎ ((p : ℕ) × (s' : State) × (zalloc n (with_heap f h) ≡ ok (p, s'))
          × (block_at h p ≡ none)
          × (block_at s'.heap p ≡ some (replicate n 0))
          × ((q : ℕ) → q ≢ p → block_at s'.heap q ≡ block_at h q)
          × (free p s' ≡ (0, with_heap f h)))
  unfolding zalloc clear
  zalloc-free = elim (allocates.gives h n some_bytes) [
    | inl failed ↦ inl (rw failed refl)
    | inr (p, m, e, positive, new, size) ↦
        let here : (p == p) ≡ true = ground arith in
        let not_null : (p == 0) ≡ false = ground arith in
        inr (
          p,
          with_heap f ((p, replicate n 0) ∷ h),
          rw (e, not_null, here, store_all m (replicate n 0) (size ∙ sym (length-replicate n 0)))
              (rw (e, here) refl),
          new,
          rw here refl,
          (λ q other. ground arith),
          ap (λ (h' : Heap). (0, with_heap f h'))
              (allocates.takes ((p, replicate n 0) ∷ h) p (replicate n 0) positive (rw here refl)
                ∙ rw here refl),
        )
  ]
