-- ===== src/Base/Digits.antt =====
-- Binary digits: what `bit_and` and `bit_or` do to each, and numbers compared by their digits.
use Prim.Native.Nat.{max, bit_and, bit_or, digits, bit_and-bitwise, bit_or-bitwise}
use Prim.Native.Nat.{ℕ, zero, suc, ◌+◌, ◌-◌, ◌*◌, ◌/◌, ◌%◌, ◌^◌, ◌≤◌, ◌<◌, min}
use sancus_core.Base.Tests.{◌==◌, ltb, ltb-zero, if◌then◌else◌}
use mathlib.Core.Path.{◌≡◌, refl, sym, ap, ◌∙◌}
use native.Mathlib.Nat.{pow-suc, div-div-eq-div-mul}
use native.Mathlib.Omega.{arith}

-- The digit of `x` at place `i`, the lowest at 0.
unfoldable pub digit : ℕ → ℕ → ℕ
digit zero x = x % 2
digit (suc i) x = digit i (x / 2)

pub digit_lt : (i x : ℕ) → digit i x < 2
unfolding digit
digit_lt zero x = omega arith
digit_lt (suc i) x = digit_lt i (x / 2)

pub digit-zero : (i : ℕ) → digit i 0 ≡ 0
unfolding digit
digit-zero zero = refl
digit-zero (suc i) = digit-zero i

digits_eq_fuel : (n a b : ℕ) → a ≤ n → b ≤ n → ((i : ℕ) → digit i a ≡ digit i b) → a ≡ b
unfolding digit
digits_eq_fuel zero a b h k e = omega arith
digits_eq_fuel (suc n) a b h k e =
    omega
      (arith, e 0, digits_eq_fuel n (a / 2) (b / 2) (omega arith) (omega arith) (λ i. e (suc i)))

-- Numbers with the same digits are equal.
pub digits_eq : (a b : ℕ) → ((i : ℕ) → digit i a ≡ digit i b) → a ≡ b
digits_eq a b e = digits_eq_fuel (a + b) a b (omega arith) (omega arith) e

digit-pair : (i q r : ℕ) → r < 2 → digit (suc i) (q * 2 + r) ≡ digit i q
unfolding digit
digit-pair i q r h = ap (digit i) (omega arith)

-- The recursion on digits that the native operations stand for.
module _ (z : ℕ → ℕ) (f : ℕ → ℕ → ℕ) (small : (x y : ℕ) → x < 2 → y < 2 → f x y < 2)
    (ends : (i b : ℕ) → digit i (z b) ≡ f 0 (digit i b)) where
  digits-digit : (i n a b : ℕ) → a ≤ n → digit i (digits z f n a b) ≡ f (digit i a) (digit i b)
  unfolding digit
  digits-digit i zero zero b h = ends i b ∙ ap (λ (t : ℕ). f t (digit i b)) (sym (digit-zero i))
  digits-digit i zero (suc a) b h = absurd (omega arith)
  digits-digit i (suc n) zero b h = ends i b ∙ ap (λ (t : ℕ). f t (digit i b)) (sym (digit-zero i))
  digits-digit zero (suc n) (suc a) b h =
      omega (arith, small (suc a % 2) (b % 2) (omega arith) (omega arith))
  digits-digit (suc i) (suc n) (suc a) b h =
      digit-pair i (digits z f n (suc a / 2) (b / 2)) (f (suc a % 2) (b % 2))
        (small (suc a % 2) (b % 2) (omega arith) (omega arith))
      ∙ digits-digit i n (suc a / 2) (b / 2) (omega arith)

pub digit-bit_and : (i a b : ℕ) → digit i (bit_and a b) ≡ min (digit i a) (digit i b)
digit-bit_and i a b =
    ap (digit i) (bit_and-bitwise a b)
    ∙ digits-digit (λ y. 0) min (λ x y h k. omega arith) (λ j y. omega (arith, digit-zero j)) i a a
        b (omega arith)

pub digit-bit_or : (i a b : ℕ) → digit i (bit_or a b) ≡ max (digit i a) (digit i b)
digit-bit_or i a b =
    ap (digit i) (bit_or-bitwise a b)
    ∙ digits-digit (λ y. y) max (λ x y h k. omega arith) (λ j y. omega arith) i a a b (omega arith)

two_pow : (s x : ℕ) → x * 2 ^ suc s ≡ x * 2 ^ s * 2
two_pow s x = grind (arith, pow-suc 2 s)

-- Shifts.
pub digit-shr : (s i x : ℕ) → digit i (x / 2 ^ s) ≡ digit (s + i) x
unfolding digit
digit-shr zero i x = ground arith
digit-shr (suc s) i x = rw (half, place) (digit-shr s i (x / 2))
  where
    place : suc s + i ≡ suc (s + i)
    place = omega arith

    double : 2 ^ suc s ≡ 2 * 2 ^ s
    double = omega (arith, two_pow s 1)

    half : x / 2 ^ suc s ≡ x / 2 / 2 ^ s
    half = ap (λ (t : ℕ). x / t) double ∙ sym (div-div-eq-div-mul x 2 (2 ^ s))

pub digit-shl : (s i x : ℕ) → digit i (x * 2 ^ s) ≡ (if ltb i s then 0 else digit (i - s) x)
unfolding digit
digit-shl zero i x = rw (ltb-zero i) (ground arith)
digit-shl (suc s) zero x = ground (arith, two_pow s x)
digit-shl (suc s) (suc i) x =
    ap (digit i) (omega (arith, two_pow s x)) ∙ digit-shl s i x ∙ ground arith

-- A mask keeps no more than there is, and what it keeps can be taken away.
bit_and_halves :
    (a b : ℕ)
    → (bit_and a b / 2 ≡ bit_and (a / 2) (b / 2)) × (bit_and a b % 2 ≡ min (a % 2) (b % 2))
unfolding digit
bit_and_halves a b = (
  digits_eq (bit_and a b / 2) (bit_and (a / 2) (b / 2))
      (λ i. digit-bit_and (suc i) a b ∙ sym (digit-bit_and i (a / 2) (b / 2))),
  digit-bit_and 0 a b,
)

bit_and_le_fuel : (n a b : ℕ) → a ≤ n → bit_and a b ≤ a
bit_and_le_fuel zero zero b h = omega (arith, bit_and-bitwise 0 b)
bit_and_le_fuel zero (suc a) b h = absurd (omega arith)
bit_and_le_fuel (suc n) a b h =
    omega (arith, (bit_and_halves a b).0, (bit_and_halves a b).1, bit_and_le_fuel n (a / 2) (b / 2))

pub bit_and_le : (a b : ℕ) → bit_and a b ≤ a
bit_and_le a b = bit_and_le_fuel a a b (omega arith)

pub bit_and_comm : (a b : ℕ) → bit_and a b ≡ bit_and b a
bit_and_comm a b = digits_eq _ _ (λ i. omega (arith, digit-bit_and i a b, digit-bit_and i b a))

pub digit-clear : (i a b : ℕ) → digit i (a - bit_and a b) ≡ digit i a - digit i b
unfolding digit
digit-clear zero a b = omega (arith, (bit_and_halves a b).1, bit_and_le a b)
digit-clear (suc i) a b = ap (digit i) half ∙ digit-clear i (a / 2) (b / 2)
  where
    half : (a - bit_and a b) / 2 ≡ a / 2 - bit_and (a / 2) (b / 2)
    half = omega (arith, (bit_and_halves a b).0, (bit_and_halves a b).1, bit_and_le a b)

-- What `bit_and` takes and what it leaves, in one number.
pub bit_or-clear : (a b : ℕ) → bit_or b (a - bit_and a b) ≡ bit_or a b
bit_or-clear a b = digits_eq _ _ (λ i. omega (
  arith,
  digit-bit_or i b (a - bit_and a b),
  digit-bit_or i a b,
  digit-clear i a b,
  digit_lt i a,
  digit_lt i b,
))

pub bit_and-bit_or : (l a b : ℕ) → bit_and l (bit_or a b) ≡ bit_or (bit_and l a) (bit_and l b)
bit_and-bit_or l a b = digits_eq _ _ (λ i. omega (
  arith,
  digit-bit_and i l (bit_or a b),
  digit-bit_or i a b,
  digit-bit_or i (bit_and l a) (bit_and l b),
  digit-bit_and i l a,
  digit-bit_and i l b,
))

pub bit_and-clear_of : (l a m : ℕ) → bit_and l m ≡ l → bit_and l (a - bit_and a m) ≡ 0
bit_and-clear_of l a m h = digits_eq _ _ (λ i. omega (
  arith,
  digit-bit_and i l (a - bit_and a m),
  digit-clear i a m,
  digit-zero i,
  digit_lt i a,
  ap (digit i) h,
  digit-bit_and i l m,
))

pub bit_or-eq_zero : (a b : ℕ) → bit_or a b ≡ 0 → (a ≡ 0) × (b ≡ 0)
bit_or-eq_zero a b h = (
  digits_eq a 0 (λ i. omega (arith, digit-zero i, ap (digit i) h, digit-bit_or i a b)),
  digits_eq b 0 (λ i. omega (arith, digit-zero i, ap (digit i) h, digit-bit_or i a b)),
)

pub zero-bit_and : (b : ℕ) → bit_and 0 b ≡ 0
zero-bit_and b = bit_and-bitwise 0 b

pub zero-bit_or : (b : ℕ) → bit_or 0 b ≡ b
zero-bit_or b = bit_or-bitwise 0 b

pub bit_and_self : (a : ℕ) → bit_and a a ≡ a
bit_and_self a = digits_eq _ _ (λ i. omega (arith, digit-bit_and i a a))

-- A word stays one.
pub bit_or_lt : (w a b : ℕ) → a < 2 ^ w → b < 2 ^ w → bit_or a b < 2 ^ w
unfolding digit
bit_or_lt zero zero b h k = rw (zero-bit_or b) k
bit_or_lt zero (suc a) b h k = absurd (omega arith)
bit_or_lt (suc w) a b h k = omega (
  arith,
  bit_or_lt w (a / 2) (b / 2) (omega (arith, two_pow w 1)) (omega (arith, two_pow w 1)),
  two_pow w 1,
  digits_eq (bit_or a b / 2) (bit_or (a / 2) (b / 2))
      (λ i. digit-bit_or (suc i) a b ∙ sym (digit-bit_or i (a / 2) (b / 2))),
)

-- What one bit keeps.
digit_small : (i d : ℕ) → d < 2 → digit (suc i) d ≡ 0
unfolding digit
digit_small i d h = ap (digit i) (omega arith) ∙ digit-zero i

digit-bit : (i n d : ℕ) → d < 2 → digit i (d * 2 ^ n) ≡ (if i == n then d else 0)
unfolding digit
digit-bit i n d h = rw (digit-shl n i d) (place (i - n) refl)
  where
    place : (j : ℕ) → j ≡ i - n → (if ltb i n then 0 else digit j d) ≡ (if i == n then d else 0)
    place zero e = ground arith
    place (suc j) e = ground (arith, digit_small j d)

pub bit_and-bit : (n m : ℕ) → bit_and (2 ^ n) m ≡ digit n m * 2 ^ n
bit_and-bit n m = digits_eq _ _ (λ i. ground (
  arith,
  digit-bit_and i (2 ^ n) m,
  ap (digit i) one,
  digit-bit i n 1,
  digit-bit i n (digit n m),
  digit_lt n m,
  digit_lt i m,
))
  where
    one : 1 * 2 ^ n ≡ 2 ^ n
    one = omega arith

-- The digits outside the mask stay.
pub bit_and-clear_other : (l a m : ℕ) → bit_and l m ≡ 0 → bit_and l (a - bit_and a m) ≡ bit_and l a
bit_and-clear_other l a m h = digits_eq _ _ (λ i. omega (
  arith,
  digit-bit_and i l (a - bit_and a m),
  digit-bit_and i l a,
  digit-clear i a m,
  digit-zero i,
  digit_lt i l,
  digit_lt i a,
  ap (digit i) h,
  digit-bit_and i l m,
))
