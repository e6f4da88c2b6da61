-- ===== src/Base/Memory/Laws.antt =====
-- What stores and loads inside an object come to, and the window that a store extends.
use sancus_core.Base.Lists.{
  length, take, drop, get_or-take, get_or-drop, length-append, length-take, length-drop, take-all,
  take-append_past, drop-append_past, drop-drop, drop-append_le, drop-take, take-append_le,
  take-take,
}
use sancus_core.Base.Memory.{Bytes, slice, load, store, get_byte, bytes_eq}
use sancus_core.Base.Outcome.{ok, fault}
use sancus_core.Base.Tests.{le→leb, lt→leb-false}
use Prim.Native.Nat.{ℕ, ◌+◌, ◌-◌, ◌≤◌, ◌<◌}
use mathlib.Core.Path.{◌≡◌, refl, ap, ◌∙◌}
use mathlib.Core.List.{[], ◌∷◌, ◌++◌}
use mathlib.Core.Bool.{true}
use native.Mathlib.Omega.{arith}

-- What a store leaves.
abbrev pub stored : Bytes → ℕ → Bytes → Bytes
stored m off s = take off m ++ (s ++ drop (off + length s) m)

module _ (m : Bytes) (off : ℕ) (s : Bytes) where
  pub store-ok : off + length s ≤ length m → store m off s ≡ ok (stored m off s)
  unfolding store
  store-ok h = rw (le→leb _ _ h)

  pub store-fault : length m < off + length s → store m off s ≡ fault
  unfolding store
  store-fault h = rw (lt→leb-false _ _ h)

  pub length-stored : off + length s ≤ length m → length (stored m off s) ≡ length m
  length-stored h = omega (
    arith,
    length-append (take off m) (s ++ drop (off + length s) m),
    length-append s (drop (off + length s) m),
    length-take off m,
    length-drop (off + length s) m,
  )

  -- A store just past a window extends it, by as much as is taken in.
  pub slice-stored_part :
      (base len k n : ℕ)
      → off ≡ base + len
      → n ≡ len + k
      → k ≤ length s
      → off + length s ≤ length m
      → slice base n (stored m off s) ≡ slice base len m ++ take k s
  slice-stored_part base len k n e f g h = rw (
    drop-append_le base (take off m) (s ++ drop (off + length s) m)
        (omega (arith, length-take off m)),
    drop-take base off len m (omega arith),
    take-append_past n k (slice base len m) (s ++ drop (off + length s) m)
        (omega (arith, length-take len (drop base m), length-drop base m)),
    take-append_le k s (drop (off + length s) m) g,
  )

  pub slice-stored :
      (base len n : ℕ)
      → off ≡ base + len
      → n ≡ len + length s
      → off + length s ≤ length m
      → slice base n (stored m off s) ≡ slice base len m ++ s
  slice-stored base len n e f h =
      slice-stored_part base len (length s) n e f (omega arith) h
      ∙ ap (λ t. slice base len m ++ t) (take-all (length s) s (omega arith))

  -- A store behind a window leaves the window.
  pub slice-stored_before :
      (base len : ℕ)
      → base + len ≤ off
      → off + length s ≤ length m
      → slice base len (stored m off s) ≡ slice base len m
  slice-stored_before base len e h = rw (
    drop-append_le base (take off m) (s ++ drop (off + length s) m)
        (omega (arith, length-take off m)),
    drop-take base off (off - base) m refl,
    take-append_le len (take (off - base) (drop base m)) (s ++ drop (off + length s) m)
        (omega (arith, length-take (off - base) (drop base m), length-drop base m)),
    take-take len (off - base) (drop base m) (omega arith),
  )

  -- Nor does it change a window behind it.
  pub slice-stored_after :
      (base n : ℕ)
      → off + length s ≤ base
      → off + length s ≤ length m
      → slice base n (stored m off s) ≡ slice base n m
  slice-stored_after base n e h = ap (take n) (
      drop-append_past base (base - off) (take off m) (s ++ drop (off + length s) m)
        (omega (arith, length-take off m))
      ∙ drop-append_past (base - off) (base - off - length s) s (drop (off + length s) m)
          (omega arith)
      ∙ drop-drop (base - off - length s) (off + length s) base m (omega arith))

pub load-ok : (m : Bytes) (off n : ℕ) → off + n ≤ length m → load m off n ≡ ok (slice off n m)
unfolding load
load-ok m off n h = rw (le→leb _ _ h)

pub length-slice : (off n : ℕ) (m : Bytes) → off + n ≤ length m → length (slice off n m) ≡ n
length-slice off n m h = omega (arith, length-take n (drop off m), length-drop off m)

pub load_front : (m : Bytes) (n : ℕ) → n ≤ length m → load m 0 n ≡ ok (take n m)
load_front m n h = load-ok m 0 n (omega arith)

pub get_byte-slice :
    (off n i : ℕ) (m : Bytes) → i < n → get_byte (slice off n m) i ≡ get_byte m (off + i)
get_byte-slice off n i m h = get_or-take n i (drop off m) 0 h ∙ get_or-drop off i m 0

pub bytes_eq_refl : (a : Bytes) → bytes_eq a a ≡ true
bytes_eq_refl [] = refl
bytes_eq_refl (x ∷ a) = ground (arith, bytes_eq_refl a)

pub eq_of_bytes_eq : (a b : Bytes) → bytes_eq a b ≡ true → a ≡ b
eq_of_bytes_eq [] [] h = refl
eq_of_bytes_eq [] (y ∷ b) h = cc
eq_of_bytes_eq (x ∷ a) [] h = cc
eq_of_bytes_eq (x ∷ a) (y ∷ b) h = ground (arith, eq_of_bytes_eq a b)
