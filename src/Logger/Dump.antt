-- ===== src/Logger/Dump.antt =====
-- The two escapers of the library agree.
use sancus_core.Base.{
  ℕ, ◌+◌, ◌≤◌, ◌<◌, ◌≡◌, ◌∙◌, refl, ap, Bool, true, false, ◌==◌, ◌||◌, ◌&&◌, ltb, arith, length,
  length-append, ltb→lt, le→leb, ltb-zero, append_assoc, [], ◌∷◌, ◌++◌, none, some,
}
use sancus_core.Base.Int.{pos}
use sancus_core.Base.Memory.{Bytes, bytes_eq}
use sancus_core.Base.Memory.Laws.{eq_of_bytes_eq}
use sancus_core.Base.Outcome.{ok}
use sancus_core.Buffer.{Buffer, append}
use sancus_core.Buffer.Inv.{IsValid, Extends, contents, room, length-contents}
use sancus_core.Buffer.Append.{append_lem, Extends-refl}
use sancus_core.Cstr.{entry, width, emitted}
use sancus_core.Cstr.Escape.{escape, escapes, below, below-lt}
use sancus_core.Logger.{encoded, dump_from, dump_enc}

same : ℕ → Bool
same c = (c == 0) || bytes_eq (encoded c) (escape c)

same_all : below same 256 ≡ true
unfolding same encoded emitted width entry
same_all = refl

same-eq : (c : ℕ) → 0 < c → same c ≡ true → bytes_eq (encoded c) (escape c) ≡ true
unfolding same
same-eq c p e = ground arith

encoded-escape : (c : ℕ) → 0 < c → c < 256 → encoded c ≡ escape c
encoded-escape c p h =
    eq_of_bytes_eq (encoded c) (escape c) (same-eq c p (below-lt same 256 c same_all h))

-- Bytes from 1 to 255.
abbrev pub plain_bytes : Bytes → Bool
plain_bytes [] = true
plain_bytes (c ∷ cs) = ltb 0 c && ltb c 256 && plain_bytes cs

dump_from-count :
    (s : Bytes) (count : ℕ)
    → plain_bytes s ≡ true
    → dump_from none s count ≡ ok (pos (count + length (escapes s)), none)
unfolding dump_from
dump_from-count [] count h = ap (λ (n : ℕ). ok (pos n, none)) (omega arith)
dump_from-count (c ∷ s) count h =
    dump_from-count s (count + length (encoded c)) (ground arith)
    ∙ ap (λ (n : ℕ). ok (pos n, none))
        (omega (
          arith,
          length-append (escape c) (escapes s),
          ap length (encoded-escape c (ltb→lt 0 c (ground arith)) (ltb→lt c 256 (ground arith))),
        ))

-- Without a buffer, `dump_enc` returns the length of the text that `sancus_fmt_ascii_cstr` would
-- make of the bytes, for bytes other than NUL.
pub dump_enc-count :
    (s : Bytes) → plain_bytes s ≡ true → dump_enc none s ≡ ok (pos (length (escapes s)), none)
dump_enc-count s h = dump_from-count s 0 h ∙ ap (λ (n : ℕ). ok (pos n, none)) (omega arith)

pub append_fits :
    (s : Bytes) {b : Buffer}
    → IsValid b
    → length s ≤ room b
    → (b' : Buffer) × (append (some b) false (some s) (pos (length s))
        ≡ ok (pos (length s), some b'))
      × Extends b s b'
append_fits s {b} v h = rw (le→leb (length s) (room b) h) at (append_lem false s v)

pub Extends-append :
    {b b' b'' : Buffer} (s t : Bytes) → Extends b s b' → Extends b' t b'' → Extends b (s ++ t) b''
Extends-append {b} s t x y = record {
  valid = y.valid;
  data_eq = y.data_eq ∙ ap (λ (r : Bytes). r ++ t) x.data_eq ∙ append_assoc (contents b) s t;
  base_eq = y.base_eq ∙ x.base_eq;
  size_eq = y.size_eq ∙ x.size_eq;
}

pub room-Extends :
    {b b' : Buffer} (s : Bytes) → IsValid b → Extends b s b' → room b' + length s ≡ room b
room-Extends {b} {b'} s v x = omega (
  arith,
  x.base_eq,
  x.size_eq,
  v.extent,
  x.valid.extent,
  length-contents v,
  length-contents x.valid,
  ap length x.data_eq,
  length-append (contents b) s,
)

dump_from-append :
    (s : Bytes) {b : Buffer} (count : ℕ)
    → IsValid b
    → plain_bytes s ≡ true
    → length (escapes s) ≤ room b
    → (b' : Buffer) × (dump_from (some b) s count ≡ ok (pos (count + length (escapes s)), some b'))
      × Extends b (escapes s) b'
unfolding dump_from
dump_from-append [] {b} count v h l =
    (b, ap (λ (n : ℕ). ok (pos n, some b)) (omega arith), Extends-refl v)
dump_from-append (c ∷ s) {b} count v h l =
    let same : encoded c ≡ escape c =
      encoded-escape c (ltb→lt 0 c (ground arith)) (ltb→lt c 256 (ground arith)) in
    let sum = length-append (escape c) (escapes s) in
    let (b', e, x) = append_fits (escape c) v (omega arith) in
    let (b'', e', x') =
      dump_from-append s (count + length (escape c)) x.valid (ground arith)
        (omega (arith, room-Extends (escape c) v x)) in
    (
      b'',
      rw (same, e, ltb-zero (length (escape c)), e')
          (ap (λ (n : ℕ). ok (pos n, some b'')) (omega arith)),
      Extends-append (escape c) (escapes s) x x',
    )

-- In a valid buffer with room for the text that `sancus_fmt_ascii_cstr` would make of the bytes,
-- `dump_enc` appends that text and returns its length, for bytes other than NUL.
pub dump_enc-append :
    (s : Bytes) {b : Buffer}
    → IsValid b
    → plain_bytes s ≡ true
    → length (escapes s) ≤ room b
    → (b' : Buffer) × (dump_enc (some b) s ≡ ok (pos (length (escapes s)), some b'))
      × Extends b (escapes s) b'
dump_enc-append s v h l =
    let (b', e, x) = dump_from-append s 0 v h l in
    (b', e ∙ ap (λ (n : ℕ). ok (pos n, some b')) (omega arith), x)
