-- ===== src/Alloc.antt =====
-- include/sancus/alloc.h and src/sancus/alloc.c: memory from a `realloc` that the program can
-- replace. The memory is the blocks in use with their addresses; address 0 is NULL, and `realloc`
-- is a function of the memory, an address and a size.
pub mod Blocks
mod Tests
use sancus_core.Base.{ℕ, Option, none, some, List, [], ◌∷◌, ◌==◌, if◌then◌else◌, replicate}
use sancus_core.Base.Memory.{Bytes, store}
use sancus_core.Base.Outcome.{Outcome, ok, fault, ◌>>=◌}

abbrev pub Heap : Type 0
Heap = List (ℕ × Bytes)

abbrev pub Realloc : Type 0
Realloc = Heap → ℕ → ℕ → ℕ × Heap

abbrev pub block_at : Heap → ℕ → Option Bytes
block_at [] p = none
block_at ((q, m) ∷ h) p = if q == p then some m else block_at h p

abbrev pub put_block : Heap → ℕ → Bytes → Heap
put_block [] p m = []
put_block ((q, old) ∷ h) p m = if q == p then (q, m) ∷ h else (q, old) ∷ put_block h p m

-- `_sancus_realloc`, and the memory.
pub record State : Type 0 where
  pub current : Realloc
  pub heap : Heap

-- `sancus_realloc` and `sancus_alloc`
abbrev pub realloc : ℕ → ℕ → State → ℕ × State
realloc p size s = ((s.current s.heap p size).0, record s { heap = (s.current s.heap p size).1 })

abbrev pub alloc : ℕ → State → ℕ × State
alloc size s = realloc 0 size s

-- `memset(ptr, 0x00, size)`
unfoldable pub clear : ℕ → ℕ → State → Outcome State
clear p size s = elim (block_at s.heap p) [
  | none ↦ fault
  | some m ↦ (store m 0 (replicate size 0) >>= λ m'. ok (record s { heap = put_block s.heap p m' }))
]

-- `sancus_zalloc`
unfoldable pub zalloc : ℕ → State → Outcome (ℕ × State)
unfolding clear
zalloc size s =
    let (p, s') = alloc size s in
    if p == 0 then ok (p, s') else (clear p size s' >>= λ s''. ok (p, s''))

-- `sancus_free`: the pointer that is left, and the state.
abbrev pub free : ℕ → State → ℕ × State
free p s = (0, (realloc p 0 s).1)

-- `sancus_set_realloc`
abbrev pub set_realloc : Realloc → State → State
set_realloc f s = record s { current = f }
