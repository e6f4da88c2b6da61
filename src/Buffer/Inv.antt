-- ===== src/Buffer/Inv.antt =====
-- The representation invariant of `struct sancus_buffer`, the data that it stands for, and what it
-- means that an operation appended to or cut the data.
use sancus_core.Base.{ℕ, ◌+◌, ◌-◌, ◌^◌, ◌≤◌, ◌<◌, ◌≡◌, refl, some, take, [], ◌++◌, arith, length}
use sancus_core.Base.Int.{pos}
use sancus_core.Base.Memory.{Bytes, slice}
use sancus_core.Base.Memory.Laws.{length-slice}
use sancus_core.Base.Word.{add64, signed64}
use sancus_core.Buffer.{Buffer, init, tail_size}

-- The window lies in the array. `sancus_buffer_init` takes an `unsigned` size, and refuses 0.
pub record IsValid (b : Buffer) : Type 0 where
  pub extent : b.base + b.len ≤ b.size
  pub backed : b.size ≡ length b.buf
  pub small : b.size < 2 ^ 32
  pub positive : 0 < b.size

-- The stored data.
abbrev pub contents : Buffer → Bytes
contents b = slice b.base b.len b.buf

-- The free bytes behind the data.
abbrev pub room : Buffer → ℕ
room b = b.size - b.base - b.len

-- `b'` is `b` with `s` appended to the data.
pub record Extends (b : Buffer) (s : Bytes) (b' : Buffer) : Type 0 where
  pub valid : IsValid b'
  pub data_eq : contents b' ≡ contents b ++ s
  pub base_eq : b'.base ≡ b.base
  pub size_eq : b'.size ≡ b.size

-- `b'` is `b` with only the first `n` bytes of the data.
pub record Cuts (b : Buffer) (n : ℕ) (b' : Buffer) : Type 0 where
  pub valid : IsValid b'
  pub data_eq : contents b' ≡ take n (contents b)
  pub base_le : b'.base ≤ b.base
  pub size_eq : b'.size ≡ b.size

module _ {b : Buffer} (v : IsValid b) where
  pub length-contents : length (contents b) ≡ b.len
  length-contents = length-slice b.base b.len b.buf (omega (arith, v.extent, v.backed))

  -- No sum or difference of the accessors wraps.
  pub no_wrap :
      (tail_size (some b) ≡ room b)
      × (add64 b.base b.len ≡ b.base + b.len)
      × (signed64 (tail_size (some b)) ≡ pos (room b))
      × (signed64 b.len ≡ pos b.len)
  no_wrap = ground arith

-- `sancus_buffer_init` on an array with its size, neither NULL nor empty, gives a valid buffer
-- of that size, without data at its start.
pub init-IsValid :
    (b : Buffer) (m : Bytes)
    → 0 < length m
    → length m < 2 ^ 32
    → (b' : Buffer) × (init (some b) (some m) (length m) ≡ (pos 0, some b'))
      × IsValid b'
      × (contents b' ≡ [])
      × (b'.base ≡ 0)
      × (b'.size ≡ length m)
unfolding init
init-IsValid b m h k = (
  record { buf = m; base = 0; len = 0; size = length m },
  ground arith,
  record { extent = omega arith; backed = refl; small = k; positive = h },
  refl,
  refl,
  refl,
)
