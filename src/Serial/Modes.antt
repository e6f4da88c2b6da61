-- ===== src/Serial/Modes.antt =====
-- What the set-up functions do to the flags.
use Prim.Native.Nat.{bit_and, bit_or}
use sancus_core.Base.{ℕ, ◌≡◌, refl, ap, ◌∙◌, arith, ◌==◌, Bool-cases, inl, inr}
use sancus_core.Base.Digits.{
  digit, digit_lt, digits_eq, digit-zero, digit-bit_and, digit-bit_or, digit-clear,
  bit_and-clear_of, bit_and_self, bit_and-clear_other,
}
use sancus_core.Sys.{Termios}
use sancus_core.Serial.{
  without, raw_iflag, raw_oflag, raw_lflag, raw_cflag, frame, cs8, receiver, setup_raw, setup_8N1,
}

-- `flags` has the bits `v` of the field `m`, and outside of it what `old` has.
abbrev pub Sets : ℕ → ℕ → ℕ → ℕ → Type 0
Sets m v old flags =
    (bit_and m flags ≡ v) × ((l : ℕ) → bit_and l m ≡ 0 → bit_and l flags ≡ bit_and l old)

without-Sets : (m old : ℕ) → Sets m 0 old (without old m)
without-Sets m old =
    (bit_and-clear_of m old m (bit_and_self m), λ l apart. bit_and-clear_other l old m apart)

field-Sets : (m v old : ℕ) → bit_and v m ≡ v → Sets m v old (bit_or (without old m) v)
field-Sets m v old within = (
  digits_eq _ _ (λ i. omega (
    arith,
    digit-bit_and i m (bit_or (without old m) v),
    digit-bit_or i (without old m) v,
    digit-clear i old m,
    digit_lt i old,
    digit_lt i m,
    ap (digit i) within,
    digit-bit_and i v m,
  )),
  λ l apart. digits_eq _ _ (λ i. omega (
    arith,
    digit-bit_and i l (bit_or (without old m) v),
    digit-bit_or i (without old m) v,
    digit-clear i old m,
    digit_lt i old,
    digit_lt i l,
    digit-bit_and i l old,
    ap (digit i) within,
    digit-bit_and i v m,
    ap (digit i) apart,
    digit-bit_and i l m,
    digit-zero i,
  )),
)

-- `sancus_serial_setup_raw` takes away what would change the bytes on their way, sets eight bits
-- without parity, and leaves all other flags as they were.
pub setup_raw_lem :
    (tio : Termios)
    → Sets raw_iflag 0 tio.iflag (setup_raw tio).iflag
      × Sets raw_oflag 0 tio.oflag (setup_raw tio).oflag
      × Sets raw_lflag 0 tio.lflag (setup_raw tio).lflag
      × Sets raw_cflag cs8 tio.cflag (setup_raw tio).cflag
      × ((setup_raw tio).rest ≡ tio.rest)
unfolding setup_raw
setup_raw_lem tio = (
  without-Sets raw_iflag tio.iflag,
  without-Sets raw_oflag tio.oflag,
  without-Sets raw_lflag tio.lflag,
  field-Sets raw_cflag cs8 tio.cflag refl,
  refl,
)

with_bits : (v old : ℕ) → bit_and v (bit_or old v) ≡ v
with_bits v old =
    digits_eq _ _ (λ i. omega (arith, digit-bit_and i v (bit_or old v), digit-bit_or i old v))

-- The functions that set a speed leave the form of a character and the receiver alone.
abbrev pub KeepsFrame : (ℕ → Termios → Termios) → Type 0
KeepsFrame set =
    (n : ℕ) (tio : Termios)
    → (bit_and frame (set n tio).cflag ≡ bit_and frame tio.cflag)
      × (bit_and receiver (set n tio).cflag ≡ bit_and receiver tio.cflag)

-- `sancus_serial_setup_8N1` sets eight bits, no parity, one stop bit, and turns the receiver on,
-- whether a speed is given or not.
pub setup_8N1_lem :
    (ispeed ospeed : ℕ → Termios → Termios) (tio : Termios) (baudrate : ℕ)
    → KeepsFrame ispeed
    → KeepsFrame ospeed
    → (bit_and frame (setup_8N1 ispeed ospeed tio baudrate).cflag ≡ cs8)
      × (bit_and receiver (setup_8N1 ispeed ospeed tio baudrate).cflag ≡ receiver)
unfolding setup_8N1
setup_8N1_lem ispeed ospeed tio baudrate h k = elim (Bool-cases (baudrate == 0)) [
  | inl none ↦ rw none framed
  | inr some ↦ rw some (
    (k baudrate (ispeed baudrate start)).0 ∙ (h baudrate start).0 ∙ framed.0,
    (k baudrate (ispeed baudrate start)).1 ∙ (h baudrate start).1 ∙ framed.1,
  )
]
  where
    start : Termios
    start = record tio { cflag = bit_or (without (bit_or tio.cflag receiver) frame) cs8 }

    framed : (bit_and frame start.cflag ≡ cs8) × (bit_and receiver start.cflag ≡ receiver)
    framed =
        let sets : Sets frame cs8 (bit_or tio.cflag receiver) start.cflag =
          field-Sets frame cs8 (bit_or tio.cflag receiver) refl in
        (sets.0, sets.1 receiver refl ∙ with_bits receiver tio.cflag)
