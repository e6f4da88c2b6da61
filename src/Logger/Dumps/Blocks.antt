-- ===== src/Logger/Dumps/Blocks.antt =====
-- The loop over the data of a dump keeps room for the suffix.
use sancus_core.Base.{
  ℕ, zero, suc, ◌+◌, ◌-◌, ◌*◌, ◌≤◌, ◌<◌, ◌≡◌, ◌⊎◌, ◌∙◌, refl, sym, ap, inl, inr, false, ◌==◌, arith,
  length, length-append, length-take, length-drop, take, drop, take-append-drop, ltb-zero,
  append_assoc, [], ◌∷◌, ◌++◌, some, Bool-cases, ==_iff,
}
use sancus_core.Base.Int.{ℤ, pos}
use sancus_core.Base.Memory.{Bytes}
use sancus_core.Base.Outcome.{ok}
use sancus_core.Base.Word.{sub64}
use sancus_core.Buffer.{Buffer, tail_size}
use sancus_core.Buffer.Inv.{IsValid, Extends, room, no_wrap}
use sancus_core.Buffer.Append.{Extends-refl}
use sancus_core.Logger.{encoded, dump_from, dump_enc}
use sancus_core.Logger.Dump.{append_fits, Extends-append, room-Extends}
use sancus_core.Logger.Dumps.{block, dump_blocks}

-- What the dump of some bytes is.
abbrev pub texts : Bytes → Bytes
texts [] = []
texts (c ∷ s) = encoded c ++ texts s

length-encoded : (c : ℕ) → length (encoded c) ≤ 4
unfolding encoded
length-encoded c = ground arith

length-texts : (s : Bytes) → length (texts s) ≤ 4 * length s
length-texts [] = omega arith
length-texts (c ∷ s) =
    omega (arith, length-append (encoded c) (texts s), length-encoded c, length-texts s)

texts-append : (s t : Bytes) → texts (s ++ t) ≡ texts s ++ texts t
texts-append [] t = refl
texts-append (c ∷ s) t =
    ap (λ r. encoded c ++ r) (texts-append s t) ∙ sym (append_assoc (encoded c) (texts s) (texts t))

dump_from-texts :
    (s : Bytes) {b : Buffer} (count : ℕ)
    → IsValid b
    → length (texts s) ≤ room b
    → (b' : Buffer) × (rc : ℤ) × (dump_from (some b) s count ≡ ok (rc, some b'))
      × Extends b (texts s) b'
unfolding dump_from
dump_from-texts [] {b} count v l = (b, pos count, refl, Extends-refl v)
dump_from-texts (c ∷ s) {b} count v l =
    let sum = length-append (encoded c) (texts s) in
    let (b', e, x) = append_fits (encoded c) v (omega arith) in
    let (b'', rc, e', x') =
      dump_from-texts s (count + length (encoded c)) x.valid
        (omega (arith, room-Extends (encoded c) v x)) in
    (b'', rc, rw (e, ltb-zero (length (encoded c))) e', Extends-append (encoded c) (texts s) x x')

-- A block leaves the room for the suffix, and there is one while 14 bytes are free.
block_lem :
    {b : Buffer} (len : ℕ)
    → IsValid b
    → 10 ≤ room b
    → 0 < len
    → (4 * block (some b) len + 10 ≤ room b)
      × (block (some b) len ≤ len)
      × ((0 < block (some b) len) ⊎ (room b < 14))
block_lem {b} len v h p =
    let free : tail_size (some b) ≡ room b = (no_wrap v).0 in
    let rest : sub64 (room b) 10 ≡ room b - 10 = omega (arith, v.small) in
    rw (free, rest) (ground arith)

stuck : (n r : ℕ) → n ≡ 0 → (0 < n) ⊎ (r < 14) → r < 14
stuck n r z h = ground arith

not_zero : (n : ℕ) → (n == 0) ≡ false → 0 < n
not_zero n h = ground arith

one_block :
    (s : Bytes) (n : ℕ) {b : Buffer}
    → IsValid b
    → 4 * n + 10 ≤ room b
    → (b' : Buffer) × (rc : ℤ) × (dump_enc (some b) (take n s) ≡ ok (rc, some b'))
      × Extends b (texts (take n s)) b'
      × (10 ≤ room b')
one_block s n v h =
    let short = length-texts (take n s) in
    let (b', rc, e, x) = dump_from-texts (take n s) 0 v (omega (arith, length-take n s)) in
    (b', rc, e, x, omega (arith, room-Extends (texts (take n s)) v x, length-take n s))

joined :
    (s : Bytes) (n : ℕ) (first left : Bytes)
    → first ++ left ≡ drop n s
    → (take n s ++ first) ++ left ≡ s
joined s n first left whole =
    append_assoc (take n s) first left ∙ ap (λ t. take n s ++ t) whole ∙ take-append-drop n s

Extends-joined :
    (s first : Bytes) (n : ℕ) {b b' b'' : Buffer}
    → Extends b (texts (take n s)) b'
    → Extends b' (texts first) b''
    → Extends b (texts (take n s ++ first)) b''
Extends-joined s first n x y =
    rw (texts-append (take n s) first) (Extends-append (texts (take n s)) (texts first) x y)

-- In a valid buffer with 10 bytes free, and with fuel for the data, the loop over the data of a
-- dump ends. It appends the text of the first bytes of the data, leaves 10 bytes free for the
-- suffix, and stops only at the end of the data or where fewer than 14 bytes are free.
pub dump_blocks_lem :
    (fuel : ℕ) (s : Bytes) {b : Buffer}
    → IsValid b
    → 10 ≤ room b
    → length s ≤ fuel
    → (b' : Buffer) × (first : Bytes) × (left : Bytes) × (dump_blocks fuel (some b) s
        ≡ ok (some (some b', left)))
      × (first ++ left ≡ s)
      × Extends b (texts first) b'
      × (10 ≤ room b')
      × ((left ≡ []) ⊎ (room b' < 14))
unfolding dump_blocks
dump_blocks_lem fuel [] {b} v h l = (b, [], [], refl, refl, Extends-refl v, h, inl refl)
dump_blocks_lem zero (c ∷ s) {b} v h l = absurd (omega arith)
dump_blocks_lem (suc fuel) (c ∷ s) {b} v h l =
    let n : ℕ = block (some b) (length (c ∷ s)) in
    let (fit, most, some_room) = block_lem (length (c ∷ s)) v h (omega arith) in
    elim (Bool-cases (n == 0)) [
      | inl z ↦ (
        b,
        [],
        c ∷ s,
        rw z refl,
        refl,
        Extends-refl v,
        h,
        inr (stuck n (room b) ((==_iff n 0).0 z) some_room),
      )
      | inr z ↦
          let (b', rc, e, x, h') = one_block (c ∷ s) n v fit in
          let (b'', first, left, e', whole, y, h'', ends) =
            dump_blocks_lem fuel (drop n (c ∷ s)) x.valid h'
              (omega (arith, length-drop n (c ∷ s), not_zero n z)) in
          (
            b'',
            take n (c ∷ s) ++ first,
            left,
            rw (z, e) e',
            joined (c ∷ s) n first left whole,
            Extends-joined (c ∷ s) first n x y,
            h'',
            ends,
          )
    ]
