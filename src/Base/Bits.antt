-- ===== src/Base/Bits.antt =====
-- `bit_and` by a constant mask, as arithmetic. A mask is the list of its binary digits, lowest first.
use Prim.Native.Nat.{ℕ, zero, suc, ◌+◌, ◌*◌, ◌/◌, ◌%◌, ◌≤◌, min, bit_and, digits, bit_and-bitwise}
use mathlib.Core.Path.{◌≡◌, refl, sym, ◌∙◌}
use mathlib.Core.Bool.{Bool, true, false}
use mathlib.Core.List.{List, [], ◌∷◌}
use native.Mathlib.Omega.{arith}

abbrev pub mask : List Bool → ℕ
mask [] = 0
mask (true ∷ bits) = 1 + mask bits * 2
mask (false ∷ bits) = mask bits * 2

-- The digits of a number that a mask keeps.
abbrev pub select : List Bool → ℕ → ℕ
select [] a = 0
select (true ∷ bits) a = select bits (a / 2) * 2 + a % 2
select (false ∷ bits) a = select bits (a / 2) * 2

select-zero : (bits : List Bool) → select bits 0 ≡ 0
select-zero [] = refl
select-zero (true ∷ bits) = omega (arith, select-zero bits)
select-zero (false ∷ bits) = omega (arith, select-zero bits)

-- The recursion that the native operation stands for, on any fuel that suffices.
digits-select :
    (n a : ℕ) (bits : List Bool) → a ≤ n → digits (λ b. zero) min n a (mask bits) ≡ select bits a
digits-select zero zero bits h = sym (select-zero bits)
digits-select (suc n) zero bits h = sym (select-zero bits)
digits-select zero (suc a) bits h = absurd (omega arith)
digits-select (suc n) (suc a) [] h = omega (arith, digits-select n (suc a / 2) [] (omega arith))
digits-select (suc n) (suc a) (true ∷ bits) h =
    let half : (1 + mask bits * 2) / 2 ≡ mask bits = omega arith in
    rw half (omega (arith, digits-select n (suc a / 2) bits (omega arith)))
digits-select (suc n) (suc a) (false ∷ bits) h =
    let half : mask bits * 2 / 2 ≡ mask bits = omega arith in
    rw half (omega (arith, digits-select n (suc a / 2) bits (omega arith)))

pub bit_and-select : (a : ℕ) (bits : List Bool) → bit_and a (mask bits) ≡ select bits a
bit_and-select a bits = bit_and-bitwise a (mask bits) ∙ digits-select a a bits (omega arith)

-- The mask that rounds a 16-bit length down to four bytes, and the one of the low 14 bits.
pub bit_and_fffc : (a : ℕ) → bit_and a 0xfffc ≡ a % 65536 / 4 * 4
bit_and_fffc a =
    bit_and-select a (
      false ∷ false ∷ true ∷ true ∷ true ∷ true ∷ true ∷ true ∷ true ∷ true ∷ true ∷ true ∷ true
      ∷ true ∷ true ∷ true ∷ [])
    ∙ omega arith

pub bit_and_3fff : (a : ℕ) → bit_and a 0x3fff ≡ a % 16384
bit_and_3fff a =
    bit_and-select a (
      true ∷ true ∷ true ∷ true ∷ true ∷ true ∷ true ∷ true ∷ true ∷ true ∷ true ∷ true ∷ true
      ∷ true ∷ [])
    ∙ omega arith
