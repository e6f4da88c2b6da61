-- ===== src/Netlink/Area.antt =====
-- What a message holds: its attributes, in order, in its memory.
use sancus_core.Base.{
  ℕ, ◌+◌, ◌*◌, ◌/◌, ◌^◌, ◌≤◌, ◌<◌, ◌≡◌, ◌∙◌, refl, sym, List, [], ◌∷◌, ◌++◌, arith, length,
}
use sancus_core.Base.Memory.{Bytes, slice}
use sancus_core.Base.Memory.Laws.{
  stored, store-ok, slice-stored, slice-stored_before, slice-stored_after, load-ok,
}
use sancus_core.Base.Outcome.{ok}
use sancus_core.Netlink.Wire.{align, align_lem, le, to_le, read, write, length-to_le}

-- An attribute: its type, with its flags, and its payload.
pub record Attribute : Type 0 where
  pub type : ℕ
  pub payload : Bytes

-- The bytes that an attribute takes up: its header, its payload and the padding.
abbrev pub span : Attribute → ℕ
span a = (4 + length a.payload + 3) / 4 * 4

-- The attribute stands at an offset.
pub record AttrAt (m : Bytes) (off : ℕ) (a : Attribute) : Type 0 where
  pub len_eq : slice off 2 m ≡ to_le 2 (4 + length a.payload)
  pub type_eq : slice (off + 2) 2 m ≡ to_le 2 a.type
  pub data_eq : slice (off + 4) (length a.payload) m ≡ a.payload
  pub small : a.type < 2 ^ 16
  pub short : length a.payload ≤ 65528

-- The attributes stand behind each other between two offsets.
abbrev pub Holds : Bytes → ℕ → List Attribute → ℕ → Type 0
Holds m off [] tail = off ≡ tail
Holds m off (a ∷ xs) tail = AttrAt m off a × Holds m (off + span a) xs tail

-- A message of `len` bytes without an extra header that holds the attributes, in a buffer.
pub record IsMsg (m : Bytes) (len : ℕ) (xs : List Attribute) : Type 0 where
  pub header : slice 0 4 m ≡ to_le 4 len
  pub attrs : Holds m 16 xs len
  pub aligned : len ≡ len / 4 * 4
  pub small : len ≤ 65532
  pub inside : len ≤ length m

pub align_id : (n : ℕ) → n ≡ n / 4 * 4 → n ≤ 65532 → align n ≡ n
align_id n e h = align_lem n ∙ omega arith

pub align-span : (a : Attribute) → length a.payload ≤ 65528 → align (4 + length a.payload) ≡ span a
align-span a h = align_lem (4 + length a.payload) ∙ omega arith

pub Holds-le :
    (m : Bytes) (off : ℕ) (xs : List Attribute) (tail : ℕ) → Holds m off xs tail → off ≤ tail
Holds-le m off [] tail e = omega arith
Holds-le m off (a ∷ xs) tail (v, r) = omega (arith, Holds-le m (off + span a) xs tail r)

-- Two stores agree on the bytes from `lo` to `hi`.
abbrev pub Agree : Bytes → Bytes → ℕ → ℕ → Type 0
Agree m m' lo hi = (off n : ℕ) → lo ≤ off → off + n ≤ hi → slice off n m' ≡ slice off n m

pub Agree-before :
    (m : Bytes) (off : ℕ) (s : Bytes) (lo : ℕ)
    → off + length s ≤ length m
    → Agree m (stored m off s) lo off
Agree-before m off s lo h p n l e = slice-stored_before m off s p n e h

pub Agree-after :
    (m : Bytes) (off : ℕ) (s : Bytes) (hi : ℕ)
    → off + length s ≤ length m
    → Agree m (stored m off s) (off + length s) hi
Agree-after m off s hi h p n l e = slice-stored_after m off s p n l h

AttrAt-Agree :
    (m m' : Bytes) (off : ℕ) (a : Attribute)
    → Agree m m' off (off + 4 + length a.payload)
    → AttrAt m off a
    → AttrAt m' off a
AttrAt-Agree m m' off a g v = record {
  len_eq = g off 2 (omega arith) (omega arith) ∙ v.len_eq;
  type_eq = g (off + 2) 2 (omega arith) (omega arith) ∙ v.type_eq;
  data_eq = g (off + 4) (length a.payload) (omega arith) (omega arith) ∙ v.data_eq;
  small = v.small;
  short = v.short;
}

pub Holds-Agree :
    (m m' : Bytes) (lo off : ℕ) (xs : List Attribute) (tail : ℕ)
    → Agree m m' lo tail
    → lo ≤ off
    → Holds m off xs tail
    → Holds m' off xs tail
Holds-Agree m m' lo off [] tail g l e = e
Holds-Agree m m' lo off (a ∷ xs) tail g l (v, r) = (
  AttrAt-Agree m m' off a
      (λ p n h k. g p n (omega arith) (omega (arith, Holds-le m (off + span a) xs tail r))) v,
  Holds-Agree m m' lo (off + span a) xs tail g (omega arith) r,
)

pub Holds-append :
    (m : Bytes) (off : ℕ) (xs : List Attribute) (mid : ℕ) (a : Attribute)
    → Holds m off xs mid
    → AttrAt m mid a
    → Holds m off (xs ++ (a ∷ [])) (mid + span a)
Holds-append m off [] mid a e v = rw e (v, refl)
Holds-append m off (b ∷ xs) mid a (w, r) v = (w, Holds-append m (off + span b) xs mid a r v)

-- Where the last attribute stands: behind those that were there before.
pub Holds-last :
    (m m' : Bytes) (off : ℕ) (xs : List Attribute) (mid : ℕ) (a : Attribute)
    → Holds m' off xs mid
    → Holds m off (xs ++ (a ∷ [])) (mid + span a)
    → AttrAt m mid a
Holds-last m m' off [] mid a e (v, r) = rw (sym e) v
Holds-last m m' off (b ∷ xs) mid a (w, r) (w', r') = Holds-last m m' (off + span b) xs mid a r r'

-- Reading and writing fields.
pub read-ok :
    (k : ℕ) (m : Bytes) (off : ℕ) → off + k ≤ length m → read k m off ≡ ok (le (slice off k m))
unfolding read
read-ok k m off h = rw (load-ok m off k h)

pub write-ok :
    (k : ℕ) (m : Bytes) (off x : ℕ)
    → off + k ≤ length m
    → write k m off x ≡ ok (stored m off (to_le k x))
unfolding write
write-ok k m off x h = store-ok m off (to_le k x) (omega (arith, length-to_le k x))

-- What a store has put where it was made.
pub slice-own :
    (m : Bytes) (off : ℕ) (s : Bytes)
    → off + length s ≤ length m
    → slice off (length s) (stored m off s) ≡ s
slice-own m off s h = slice-stored m off s off 0 (length s) (omega arith) (omega arith) h
