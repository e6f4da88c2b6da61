-- ===== src/Cstr/Decode.antt =====
-- What reads the text back.
use sancus_core.Base.{
  ℕ, zero, suc, ◌+◌, ◌-◌, ◌*◌, ◌/◌, ◌%◌, ◌≤◌, ◌<◌, ◌≡◌, ◌∙◌, refl, ap, Bool, true, false, not, [],
  ◌∷◌, ◌++◌, arith, ltb, ◌==◌, ◌&&◌, if◌then◌else◌, length, inl, inr,
}
use sancus_core.Base.Memory.{Bytes}
use sancus_core.Cstr.{entry, width, emitted, hexa}
use sancus_core.Cstr.Escape.{escape, escapes, width-cases, below, below-lt}

-- A reader of C string literals: the escapes with a letter, and those of two hexadecimal digits.
unletter : ℕ → ℕ
unletter b =
    if b == 48
    then 0
    else if b == 97
    then 7
    else if b == 98
    then 8
    else if b == 116
    then 9
    else if b == 110
    then 10
    else if b == 118
    then 11
    else if b == 102
    then 12
    else if b == 114
    then 13
    else b

unhex : ℕ → ℕ
unhex d = if ltb d 58 then d - 48 else d - 87

-- The first byte that a text stands for, and how much of the text is behind it.
read_hex : Bytes → ℕ × Bytes
unfolding unhex
read_hex (h ∷ l ∷ s) = (unhex h * 16 + unhex l, s)
read_hex _ = (0, [])

read_escape : Bytes → ℕ × Bytes
unfolding read_hex unletter
read_escape [] = (0, [])
read_escape (b ∷ s) = if b == 120 then read_hex s else (unletter b, s)

read_one : ℕ → Bytes → ℕ × Bytes
unfolding read_escape
read_one a s = if a == 92 then read_escape s else (a, s)

unfoldable pub decode : ℕ → Bytes → Bytes
unfolding read_one
decode zero s = []
decode (suc fuel) [] = []
decode (suc fuel) (a ∷ s) = let r = read_one a s in r.0 ∷ decode fuel r.1

-- What holds of the escape of each byte.
good : ℕ → Bool
unfolding unletter unhex
good c =
    if width c == 1
    then (entry c == c) && not (c == 92)
    else if width c == 2
    then (unletter (entry c) == c) && not (entry c == 120)
    else unhex (hexa (c / 16)) * 16 + unhex (hexa (c % 16)) == c

good_all : below good 256 ≡ true
unfolding good width entry unletter unhex
good_all = refl

module _ (c : ℕ) (g : good c ≡ true) where
  plain : width c ≡ 1 → (entry c ≡ c) × ((c == 92) ≡ false)
  unfolding good
  plain e = (ground arith, ground arith)

  lettered : width c ≡ 2 → (unletter (entry c) ≡ c) × ((entry c == 120) ≡ false)
  unfolding good
  lettered e = (ground arith, ground arith)

  hexadecimal : width c ≡ 4 → unhex (hexa (c / 16)) * 16 + unhex (hexa (c % 16)) ≡ c
  unfolding good
  hexadecimal e = ground arith

decode-escape :
    (c fuel : ℕ) (s : Bytes) → c < 256 → decode (suc fuel) (escape c ++ s) ≡ c ∷ decode fuel s
unfolding decode emitted read_one read_escape read_hex
decode-escape c fuel s h = elim (width-cases c) [
  | inl e ↦ let (f, f') = plain c g e in rw (e, f, f')
  | inr (inl e) ↦ let (f, f') = lettered c g e in rw (e, f', f)
  | inr (inr e) ↦ rw (e, hexadecimal c g e)
]
  where
    g : good c ≡ true
    g = below-lt good 256 c good_all h

abbrev pub all_bytes : Bytes → Bool
all_bytes [] = true
all_bytes (c ∷ cs) = ltb c 256 && all_bytes cs

-- Reading the text of bytes below 256 gives the bytes back, with fuel for as many.
pub decode-escapes :
    (cs : Bytes) (fuel : ℕ) → all_bytes cs ≡ true → length cs ≤ fuel → decode fuel (escapes cs) ≡ cs
unfolding decode
decode-escapes [] zero h l = refl
decode-escapes [] (suc fuel) h l = refl
decode-escapes (c ∷ cs) zero h l = absurd (omega arith)
decode-escapes (c ∷ cs) (suc fuel) h l =
    decode-escape c fuel (escapes cs) (ground arith)
    ∙ ap (λ (t : Bytes). c ∷ t) (decode-escapes cs fuel (ground arith) (omega arith))
