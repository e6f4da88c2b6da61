-- ===== src/Alloc/Tests.antt =====
-- An allocator that puts its blocks behind each other, and refuses more than ten bytes.
use sancus_core.Base.{
  ℕ, zero, suc, ◌<◌, ◌≡◌, ◌≢◌, ◌⊎◌, inl, inr, refl, none, some, [], ◌∷◌, arith, length, replicate,
  length-replicate, ltb, if◌then◌else◌, Bool-cases,
}
use sancus_core.Base.Memory.{Bytes, store}
use sancus_core.Base.Outcome.{ok}
use sancus_core.Alloc.{Heap, Realloc, State, block_at, clear, zalloc, free}
use sancus_core.Alloc.Blocks.{Allocates, without, with_heap, zalloc-free}

-- The largest address in use.
abbrev top : Heap → ℕ
top [] = 0
top ((p, m) ∷ h) = if ltb (top h) p then p else top h

block_at-above : (h : Heap) (p : ℕ) → top h < p → block_at h p ≡ none
block_at-above [] p above = refl
block_at-above ((q, m) ∷ h) p above = ground (arith, block_at-above h p)

abbrev behind : Realloc
behind h p zero = (0, without h p)
behind h zero (suc n) =
    if ltb n 10 then (suc (top h), (suc (top h), replicate (suc n) 7) ∷ h) else (0, h)
behind h (suc p) (suc n) = (0, h)

behind-Allocates : Allocates behind
behind-Allocates = record { gives = made; takes = λ h p m positive found. refl }
  where
    made :
        (h : Heap) (n : ℕ)
        → 0 < n
        → (behind h 0 n ≡ (0, h))
          ⊎ ((p : ℕ) × (m : Bytes) × (behind h 0 n ≡ (p, (p, m) ∷ h))
              × (0 < p)
              × (block_at h p ≡ none)
              × (length m ≡ n))
    made h zero some_bytes = absurd (omega arith)
    made h (suc n) some_bytes = elim (Bool-cases (ltb n 10)) [
      | inl small ↦ inr (
        suc (top h),
        replicate (suc n) 7,
        rw small refl,
        omega arith,
        block_at-above h (suc (top h)) (omega arith),
        length-replicate (suc n) 7,
      )
      | inr large ↦ inl (rw large refl)
    ]

cleared : zalloc 2 (with_heap behind []) ≡ ok (1, with_heap behind ((1, 0 ∷ 0 ∷ []) ∷ []))
unfolding zalloc clear store
cleared = refl

zalloc-free_example :
    (zalloc 2 (with_heap behind []) ≡ ok (0, with_heap behind []))
    ⊎ ((p : ℕ) × (s : State) × (zalloc 2 (with_heap behind []) ≡ ok (p, s))
        × (block_at [] p ≡ none)
        × (block_at s.heap p ≡ some (replicate 2 0))
        × ((q : ℕ) → q ≢ p → block_at s.heap q ≡ block_at [] q)
        × (free p s ≡ (0, with_heap behind [])))
zalloc-free_example = zalloc-free behind behind-Allocates [] 2 (omega arith)
