-- ===== src/Buffer/Suffix.antt =====
-- The operation that drops a text at the end of the data: `sancus_buffer_strip`.
use sancus_core.Base.{
  ℕ, ◌+◌, ◌-◌, ◌≤◌, ◌<◌, ◌≡◌, refl, sym, ap, ◌∙◌, true, false, some, [], ◌∷◌, ◌++◌, arith, length,
  take, drop, take-take, take-all, length-append, drop-append_exact, take-append_exact,
  take-append-drop, ◌≢◌, lt→ltb, leb→le, leb, Bool-cases, inl, inr, le→leb, drop-take, drop-drop,
}
use sancus_core.Base.Int.{pos}
use sancus_core.Base.Memory.{Bytes, slice, store, load, bytes_eq}
use sancus_core.Base.Memory.Laws.{
  stored, store-ok, load_front, load-ok, bytes_eq_refl, eq_of_bytes_eq,
}
use sancus_core.Base.Outcome.{ok}
use sancus_core.Base.Word.{add64}
use sancus_core.Buffer.{Buffer, arg, text_arg, strip, strip_end}
use sancus_core.Buffer.Strip.{terminated, terminated-Cuts, shorter-IsValid}
use sancus_core.Buffer.Inv.{IsValid, contents, Cuts, length-contents}

-- The last `lu` bytes of the data, where the code reads them.
module _ {b : Buffer} (v : IsValid b) (s : Bytes) (h : length s ≤ b.len) where
  abbrev end_at : ℕ
  end_at = b.base + (b.len - length s)

  end_eq : slice end_at (length s) b.buf ≡ drop (b.len - length s) (contents b)
  end_eq = sym (
      drop-take (b.len - length s) b.len (length s) (drop b.base b.buf) (omega arith)
      ∙ ap (take (length s)) (drop-drop (b.len - length s) b.base end_at b.buf refl))

  end_load :
      load b.buf (add64 b.base (b.len - length s)) (length s)
      ≡ ok (drop (b.len - length s) (contents b))
  end_load =
      ap (λ (p : ℕ). load b.buf p (length s)) (omega (arith, v.extent, v.small))
      ∙ load-ok b.buf end_at (length s) (omega (arith, v.extent, v.backed))
      ∙ ap (λ (t : Bytes). ok t) end_eq

  whole_load : load s 0 (length s) ≡ ok s
  whole_load =
      load_front s (length s) (omega arith)
      ∙ ap (λ (t : Bytes). ok t) (take-all (length s) s (omega arith))

  strip_end_hit :
      0 < length s
      → bytes_eq (drop (b.len - length s) (contents b)) s ≡ true
      → (b' : Buffer) × (strip_end (some b) s (length s) ≡ ok (pos (length s), some b'))
        × Cuts b (b.len - length s) b'
  unfolding strip_end
  strip_end_hit some_text e =
      let w = shorter-IsValid (b.len - length s) v (omega arith) in
      (
        terminated (record b { len = b.len - length s }),
        rw (le→leb _ _ h, end_load, whole_load, e, end_store) (ground (arith, v.small, v.extent)),
        terminated-Cuts w b (b.len - length s) (omega (arith, v.extent)) (omega arith) refl
            (sym (take-take (b.len - length s) b.len (drop b.base b.buf) (omega arith))),
      )
    where
      end_store :
          store b.buf (add64 b.base (b.len - length s)) (0 ∷ []) ≡ ok (stored b.buf end_at (0 ∷ []))
      end_store =
          ap (λ (p : ℕ). store b.buf p (0 ∷ [])) (omega (arith, v.extent, v.small))
          ∙ store-ok b.buf end_at (0 ∷ []) (omega (arith, v.extent, v.backed))

  strip_end_miss :
      bytes_eq (drop (b.len - length s) (contents b)) s ≡ false
      → strip_end (some b) s (length s) ≡ ok (pos 0, some b)
  unfolding strip_end
  strip_end_miss e = rw (le→leb _ _ h, end_load, whole_load, e)

strip_end_long :
    (b : Buffer) (s : Bytes)
    → leb (length s) b.len ≡ false
    → strip_end (some b) s (length s) ≡ ok (pos 0, some b)
unfolding strip_end
strip_end_long b s e = rw e

text_arg_pos : (s : Bytes) (n : ℕ) → text_arg (some s) (pos n) ≡ ok (arg s (pos n))
unfolding text_arg
text_arg_pos s n = ground arith

strip-strip_end :
    (b : Buffer) (s : Bytes)
    → 0 < length s
    → strip (some b) (some s) (pos (length s)) ≡ strip_end (some b) s (length s)
unfolding strip
strip-strip_end b s h = rw (text_arg_pos, lt→ltb _ _ h)

-- Where the data of a valid buffer is `pre` followed by a text that is not empty, stripping the
-- text leaves `pre`, returns the length of the text and keeps the buffer valid, inside the array.
pub strip-append :
    {b : Buffer} (pre s : Bytes)
    → IsValid b
    → 0 < length s
    → contents b ≡ pre ++ s
    → (b' : Buffer) × (strip (some b) (some s) (pos (length s)) ≡ ok (pos (length s), some b'))
      × IsValid b'
      × (contents b' ≡ pre)
strip-append {b} pre s v h e =
    let n : b.len ≡ length pre + length s =
      omega (arith, length-contents v, ap length e, length-append pre s) in
    let k : b.len - length s ≡ length pre = omega arith in
    let (b', out, cuts) =
      strip_end_hit v s (omega arith) h
        (rw (k, e, drop-append_exact (length pre) pre s refl) (bytes_eq_refl s)) in
    (
      b',
      strip-strip_end b s h ∙ out,
      cuts.valid,
      cuts.data_eq ∙ rw (k, e) (take-append_exact (length pre) pre s refl),
    )

-- Where the data of a valid buffer does not end in the text, stripping it changes nothing and
-- returns 0.
pub strip_other :
    {b : Buffer} (s : Bytes)
    → IsValid b
    → 0 < length s
    → ((pre : Bytes) → contents b ≢ pre ++ s)
    → strip (some b) (some s) (pos (length s)) ≡ ok (pos 0, some b)
strip_other {b} s v h other = strip-strip_end b s h ∙ elim (Bool-cases (leb (length s) b.len)) [
  | inl e ↦ strip_end_miss v s (leb→le _ _ e) (differ (leb→le _ _ e))
  | inr e ↦ too_long e
]
  where
    too_long : leb (length s) b.len ≡ false → strip_end (some b) s (length s) ≡ ok (pos 0, some b)
    too_long e = strip_end_long b s e

    differ : length s ≤ b.len → bytes_eq (drop (b.len - length s) (contents b)) s ≡ false
    differ k = elim (Bool-cases (bytes_eq (drop (b.len - length s) (contents b)) s)) [
      | inl same ↦ absurd (
          other (take (b.len - length s) (contents b)) (
            sym (take-append-drop (b.len - length s) (contents b))
            ∙ ap (λ (t : Bytes). take (b.len - length s) (contents b) ++ t)
                (eq_of_bytes_eq _ _ same)))
      | inr d ↦ d
    ]
