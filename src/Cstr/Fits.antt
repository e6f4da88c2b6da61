-- ===== src/Cstr/Fits.antt =====
-- What `sancus_fmt_ascii_cstr` leaves in the buffer.
use sancus_core.Base.{
  ℕ, suc, ◌+◌, ◌-◌, ◌≤◌, ◌<◌, ◌≡◌, ◌∙◌, refl, sym, ap, false, [], ◌∷◌, ◌++◌, append_assoc, arith,
  leb, length, take, drop, length-append, drop-drop, take-add, inl, inr, ◌⊎◌, Bool-cases, lt→ltb,
  leb→le, leb-false→lt,
}
use sancus_core.Base.Memory.{Bytes, slice}
use sancus_core.Base.Memory.Laws.{
  stored, store-ok, length-stored, slice-stored, slice-stored_before, load_front,
}
use sancus_core.Base.Outcome.{Outcome, ok}
use sancus_core.Cstr.{width, fill, fmt_ascii_cstr}
use sancus_core.Cstr.Escape.{escape, escapes, length-escape}

slice-join : (m : Bytes) (off a b : ℕ) → slice off (a + b) m ≡ slice off a m ++ slice (off + a) b m
slice-join m off a b =
    take-add a b (drop off m)
    ∙ ap (λ (t : Bytes). take a (drop off m) ++ take b t) (drop-drop a off (off + a) m refl)

-- What the loop leaves: the escapes of the first `k` bytes from `off` on, and a NUL.
record Filled (cs m : Bytes) (off room len : ℕ) : Type 0 where
  k : ℕ
  out : Bytes
  runs : fill cs m off room len ≡ ok (len + length (escapes (take k cs)), out)
  text : slice off (length (escapes (take k cs)) + 1) out ≡ escapes (take k cs) ++ (0 ∷ [])
  before : (p n : ℕ) → p + n ≤ off → slice p n out ≡ slice p n m
  kept : length out ≡ length m
  fits : length (escapes (take k cs)) < room
  most : (k ≡ length cs) ⊎ ((k < length cs) × (room ≤ length (escapes (take (suc k) cs))))

module _ (m : Bytes) (off room len : ℕ) (h : off + room ≤ length m) (l : 0 < room) where
  inside : off + 1 ≤ length m
  inside = omega arith

  stop :
      (cs : Bytes)
      → fill cs m off room len ≡ ok (len + 0, stored m off (0 ∷ []))
      → (0 ≡ length cs) ⊎ ((0 < length cs) × (room ≤ length (escapes (take 1 cs))))
      → Filled cs m off room len
  stop cs e w = record {
    k = 0;
    out = stored m off (0 ∷ []);
    runs = e;
    text = slice-stored m off (0 ∷ []) off 0 1 (omega arith) refl inside;
    before = λ p n g. slice-stored_before m off (0 ∷ []) p n g inside;
    kept = length-stored m off (0 ∷ []) inside;
    fits = l;
    most = w;
  }

-- A byte in front whose escape fits.
extend :
    (c : ℕ) (cs m : Bytes) (off room len : ℕ)
    → off + room ≤ length m
    → leb room (width c) ≡ false
    → Filled cs (stored m off (escape c)) (off + width c) (room - width c) (len + width c)
    → Filled (c ∷ cs) m off room len
unfolding fill
extend c cs m off room len h e r = record {
  k = suc r.k;
  out = r.out;
  runs =
      rw (e, store-ok m off (escape c) fit, r.runs)
        (ap (λ (n : ℕ). ok (n, r.out)) (omega (arith, total)));
  text =
      rw
        (
          total,
          sum,
          slice-join r.out off (width c) (length (escapes (take r.k cs)) + 1),
          r.text,
          head,
        )
        (sym (append_assoc (escape c) (escapes (take r.k cs)) (0 ∷ [])));
  before = λ p n g. r.before p n (omega arith) ∙ slice-stored_before m off (escape c) p n g fit;
  kept = r.kept ∙ length-stored m off (escape c) fit;
  fits = omega (arith, total, r.fits, below);
  most = elim r.most [
    | inl f ↦ inl (ap suc f)
    | inr (f, g) ↦ inr (
      omega arith,
      omega (arith, below, length-append (escape c) (escapes (take (suc r.k) cs)), length-escape c),
    )
  ];
}
  where
    below : width c < room
    below = leb-false→lt _ _ e

    fit : off + length (escape c) ≤ length m
    fit = omega (arith, length-escape c, below)

    total : length (escape c ++ escapes (take r.k cs)) ≡ width c + length (escapes (take r.k cs))
    total = omega (arith, length-append (escape c) (escapes (take r.k cs)), length-escape c)

    sum :
        width c + length (escapes (take r.k cs)) + 1
        ≡ width c + (length (escapes (take r.k cs)) + 1)
    sum = omega arith

    head : slice off (width c) r.out ≡ escape c
    head =
        r.before off (width c) (omega arith)
        ∙ slice-stored m off (escape c) off 0 (width c) (omega arith)
            (omega (arith, length-escape c)) fit

fill_lem :
    (cs m : Bytes) (off room len : ℕ) → off + room ≤ length m → 0 < room → Filled cs m off room len
unfolding fill
fill_lem [] m off room len h l =
    stop m off room len h l []
      (rw (store-ok m off (0 ∷ []) (omega arith))
        (ap (λ (n : ℕ). ok (n, stored m off (0 ∷ []))) (omega arith)))
      (inl refl)
fill_lem (c ∷ cs) m off room len h l = elim (Bool-cases (leb room (width c))) [
  | inl e ↦
      stop m off room len h l (c ∷ cs)
        (rw (e, store-ok m off (0 ∷ []) (omega arith))
          (ap (λ (n : ℕ). ok (n, stored m off (0 ∷ []))) (omega arith)))
        (inr
          (omega arith, omega (arith, leb→le _ _ e, length-append (escape c) [], length-escape c)))
  | inr e ↦ extend c cs m off room len h e (
      fill_lem cs (stored m off (escape c)) (off + width c) (room - width c) (len + width c)
        (omega (
          arith,
          leb-false→lt _ _ e,
          length-stored m off (escape c) (omega (arith, length-escape c, leb-false→lt _ _ e)),
        ))
        (omega (arith, leb-false→lt _ _ e)))
]

-- What `sancus_fmt_ascii_cstr` leaves for the first `size` bytes of `text` in a buffer of `buf_len`:
-- the escapes of the first `k` bytes and a NUL, in the buffer, with the length of the escapes as
-- the result; either all bytes are in it, or the next one's escape leaves no room for the NUL.
pub record Formatted (buf : Bytes) (buf_len : ℕ) (s : Bytes) (result : Outcome (ℕ × Bytes))
    : Type 0 where
  pub k : ℕ
  pub out : Bytes
  pub runs : result ≡ ok (length (escapes (take k s)), out)
  pub text : take (length (escapes (take k s)) + 1) out ≡ escapes (take k s) ++ (0 ∷ [])
  pub kept : length out ≡ length buf
  pub fits : length (escapes (take k s)) < buf_len
  pub most : (k ≡ length s) ⊎ ((k < length s) × (buf_len ≤ length (escapes (take (suc k) s))))

-- For a buffer that is not empty and no longer than its memory, and one byte or more to read,
-- `sancus_fmt_ascii_cstr` writes the escapes of as many bytes as fit in front of a NUL, the NUL, and
-- returns the length of the text. No access leaves the buffer.
pub fmt_ascii_cstr_lem :
    (buf : Bytes) (buf_len : ℕ) (text : Bytes) (size : ℕ)
    → 0 < buf_len
    → buf_len ≤ length buf
    → 0 < size
    → size ≤ length text
    → Formatted buf buf_len (take size text) (fmt_ascii_cstr buf buf_len text size)
unfolding fmt_ascii_cstr
fmt_ascii_cstr_lem buf buf_len text size h l p q = record {
  k = r.k;
  out = r.out;
  runs =
      rw (lt→ltb 0 buf_len h, lt→ltb 0 size p, load_front text size q, r.runs)
        (ap (λ (n : ℕ). ok (n, r.out)) (omega arith));
  text = r.text;
  kept = r.kept;
  fits = r.fits;
  most = r.most;
}
  where
    r : Filled (take size text) buf 0 buf_len 0
    r = fill_lem (take size text) buf 0 buf_len 0 (omega arith) h
