-- ===== src/Bit/Fields.antt =====
-- What is written to a field is read from it, and the other fields are as they were.
use Prim.Native.Nat.{bit_and, bit_or}
use sancus_core.Base.{ℕ, ◌+◌, ◌-◌, ◌*◌, ◌/◌, ◌^◌, ◌≤◌, ◌<◌, ◌≡◌, ◌∙◌, ap, arith}
use native.Mathlib.Nat.{mod-eq_of_lt}
use sancus_core.Base.Digits.{
  digit, digit_lt, digits_eq, digit-zero, digit-bit_and, digit-bit_or, digit-shl, digit-shr,
  digit-clear, bit_and_le, bit_and_comm,
}
use sancus_core.Bit.{shl, cms, unmask}

-- A field that lies in the word, with a mask that `sancus_bit_unmask` can be given.
abbrev pub IsField : ℕ → ℕ → Type 0
IsField mask shift = (mask < 2 ^ 32) × (mask * 2 ^ shift < 2 ^ 64)

shl_fits : (x mask shift : ℕ) → x ≤ mask → mask * 2 ^ shift < 2 ^ 64 → shl x shift ≡ x * 2 ^ shift
shl_fits x mask shift h k = mod-eq_of_lt (grind arith)

behind : (s i x : ℕ) → digit (s + i) (x * 2 ^ s) ≡ digit i x
behind s i x = digit-shl s (s + i) x ∙ ground arith

kept_le : (value mask : ℕ) → bit_and value mask ≤ mask
kept_le value mask = rw (bit_and_comm value mask) (bit_and_le mask value)

-- The digits that a value puts into the word are among those of the mask.
kept : (j value mask s : ℕ) → digit j (bit_and value mask * 2 ^ s) ≤ digit j (mask * 2 ^ s)
kept j value mask s =
    rw (digit-shl s j (bit_and value mask), digit-shl s j mask)
      (ground (arith, digit-bit_and (j - s) value mask))

-- The two parts of the word that is written.
abbrev put : ℕ → ℕ → ℕ → ℕ
put value mask s = bit_and value mask * 2 ^ s

abbrev rest : ℕ → ℕ → ℕ → ℕ
rest old mask s = old - bit_and old (mask * 2 ^ s)

-- The word that is written, without the wrap-around.
cms-fits :
    (old value mask shift : ℕ)
    → mask * 2 ^ shift < 2 ^ 64
    → cms old value mask shift ≡ bit_or (put value mask shift) (rest old mask shift)
unfolding cms
cms-fits old value mask shift h = rw (
  shl_fits mask mask shift (omega arith) h,
  shl_fits (bit_and value mask) mask shift (kept_le value mask) h,
)

-- Reading a field of a word behind writing it gives the bits of the value that the mask has, whatever
-- the word was.
pub unmask-cms :
    (old value mask shift : ℕ)
    → IsField mask shift
    → unmask (cms old value mask shift) mask shift ≡ bit_and value mask
unfolding unmask
unmask-cms old value mask shift field =
    rw (mod-eq_of_lt (field.0), cms-fits old value mask shift (field.1))
      (digits_eq _ _ (λ i. omega (
        arith,
        digit-bit_and i ((bit_or (put value mask shift) (rest old mask shift)) / 2 ^ shift) mask,
        digit-shr shift i (bit_or (put value mask shift) (rest old mask shift)),
        digit-bit_or (shift + i) (put value mask shift) (rest old mask shift),
        behind shift i (bit_and value mask),
        digit-bit_and i value mask,
        digit-clear (shift + i) old (mask * 2 ^ shift),
        behind shift i mask,
        digit_lt (shift + i) old,
      )))

-- Writing a field leaves a field as it was that has no bit in common with it.
pub unmask-cms_other :
    (old value mask shift mask' shift' : ℕ)
    → IsField mask shift
    → IsField mask' shift'
    → bit_and (mask * 2 ^ shift) (mask' * 2 ^ shift') ≡ 0
    → unmask (cms old value mask shift) mask' shift' ≡ unmask old mask' shift'
unfolding unmask
unmask-cms_other old value mask shift mask' shift' field field' apart =
    rw (mod-eq_of_lt (field'.0), cms-fits old value mask shift (field.1))
      (digits_eq _ _ (λ i. omega (
        arith,
        digit-bit_and i ((bit_or (put value mask shift) (rest old mask shift)) / 2 ^ shift') mask',
        digit-bit_and i (old / 2 ^ shift') mask',
        digit-shr shift' i (bit_or (put value mask shift) (rest old mask shift)),
        digit-shr shift' i old,
        digit-bit_or (shift' + i) (put value mask shift) (rest old mask shift),
        kept (shift' + i) value mask shift,
        digit-clear (shift' + i) old (mask * 2 ^ shift),
        digit-bit_and (shift' + i) (mask * 2 ^ shift) (mask' * 2 ^ shift'),
        ap (digit (shift' + i)) apart,
        digit-zero (shift' + i),
        behind shift' i mask',
        digit_lt i mask',
        digit_lt (shift' + i) old,
      )))
