-- ===== src/Legacy/Moves.antt =====
-- Moving and skipping keep the data.
use sancus_core.Base.{
  ℕ, ◌+◌, ◌-◌, ◌/◌, ◌≤◌, ◌<◌, ◌≡◌, ◌∙◌, refl, sym, ap, false, leb, ltb, arith, length, take, drop,
  drop-take, drop-drop, drop-all, Bool-cases, inl, inr, leb→le, leb-false→lt, ltb-false→le,
}
use sancus_core.Base.Memory.{Bytes}
use sancus_core.Base.Memory.Laws.{stored, store-ok, length-stored, slice-stored, load-ok}
use sancus_core.Base.Outcome.{ok}
use sancus_core.Base.Word.{add64, sub64}
use sancus_core.Buffer.{Buffer}
use sancus_core.Buffer.Inv.{IsValid, contents, room, length-contents}
use sancus_core.Legacy.{available, rebase, settle, reset, skip}

-- `b'` holds the data of `b`, and `s` of it is left.
pub record Holds (b' : Buffer) (size : ℕ) (s : Bytes) : Type 0 where
  pub valid : IsValid b'
  pub data_eq : contents b' ≡ s
  pub size_eq : b'.size ≡ size

available-room : {b : Buffer} → IsValid b → available b ≡ room b
available-room {b} v = omega (arith, v.extent, v.small)

-- Rebasing a valid buffer moves its data to the start of the array and changes nothing else of it.
pub rebase_lem :
    {b : Buffer}
    → IsValid b
    → (b' : Buffer) × (rebase b ≡ ok b') × Holds b' b.size (contents b) × (b'.base ≡ 0)
unfolding rebase
rebase_lem {b} v = elim (Bool-cases (ltb 0 b.base)) [
  | inr e ↦ (
    b,
    rw e,
    record { valid = v; data_eq = refl; size_eq = refl },
    omega (arith, ltb-false→le _ _ e),
  )
  | inl e ↦ elim (Bool-cases (ltb 0 b.len)) [
    | inr f ↦ (
      record b { base = 0 },
      rw (e, f),
      record {
        valid = record {
          extent = omega (arith, v.extent);
          backed = v.backed;
          small = v.small;
          positive = v.positive;
        };
        data_eq = let none : b.len ≡ 0 = omega (arith, ltb-false→le _ _ f) in rw none refl;
        size_eq = refl;
      },
      refl,
    )
    | inl f ↦ (
      record b { buf = stored b.buf 0 (contents b); base = 0 },
      rw (
        e,
        f,
        load-ok b.buf b.base b.len (omega (arith, v.extent, v.backed)),
        store-ok b.buf 0 (contents b) fit,
      ),
      record {
        valid = record {
          extent = omega (arith, v.extent);
          backed = v.backed ∙ sym (length-stored b.buf 0 (contents b) fit);
          small = v.small;
          positive = v.positive;
        };
        data_eq =
            slice-stored b.buf 0 (contents b) 0 0 b.len refl (omega (arith, length-contents v)) fit;
        size_eq = refl;
      },
      refl,
    )
  ]
]
  where
    fit : 0 + length (contents b) ≤ length b.buf
    fit = omega (arith, length-contents v, v.extent, v.backed)

settle_lem :
    {b : Buffer} (s : Bytes) (size : ℕ)
    → Holds b size s
    → (b' : Buffer) × (settle b ≡ ok (room b', b')) × Holds b' size s
unfolding settle
settle_lem {b} s size h = elim (Bool-cases (ltb (available b) (b.size / 10))) [
  | inr e ↦ (b, rw e (rw (available-room h.valid)), h)
  | inl e ↦
      let (b', f, g, z) = rebase_lem h.valid in
      (
        b',
        rw (e, f) (rw (available-room g.valid)),
        record {
          valid = g.valid;
          data_eq = g.data_eq ∙ h.data_eq;
          size_eq = g.size_eq ∙ h.size_eq;
        },
      )
]

-- Skipping `n` bytes of a valid buffer drops the first `n` bytes of its data (all of it where there
-- are no more), and returns how many bytes are free behind the rest.
pub skip_lem :
    {b : Buffer} (n : ℕ)
    → IsValid b
    → (b' : Buffer) × (skip b n ≡ ok (room b', b')) × Holds b' b.size (drop n (contents b))
unfolding skip
skip_lem {b} n v = elim (Bool-cases (leb b.len n)) [
  | inl e ↦ (
    reset b,
    rw e (ap (λ (k : ℕ). ok (k, reset b)) (omega arith)),
    record {
      valid = record {
        extent = omega arith;
        backed = v.backed;
        small = v.small;
        positive = v.positive;
      };
      data_eq = sym (drop-all n (contents b) (omega (arith, length-contents v, leb→le _ _ e)));
      size_eq = refl;
    },
  )
  | inr e ↦ elim (Bool-cases (ltb 0 n)) [
    | inl f ↦
        rw (e, f, plus e, minus e)
          (settle_lem (drop n (contents b)) b.size (skipped (leb-false→lt _ _ e)))
    | inr f ↦
        let none : n ≡ 0 = omega (arith, ltb-false→le _ _ f) in
        rw (e, f, none)
          (settle_lem (contents b) b.size (record { valid = v; data_eq = refl; size_eq = refl }))
  ]
]
  where
    plus : leb b.len n ≡ false → add64 b.base n ≡ b.base + n
    plus e = omega (arith, v.extent, v.small, leb-false→lt _ _ e)

    minus : leb b.len n ≡ false → sub64 b.len n ≡ b.len - n
    minus e = omega (arith, v.extent, v.small, leb-false→lt _ _ e)

    skipped :
        n < b.len
        → Holds (record b { base = b.base + n; len = b.len - n }) b.size (drop n (contents b))
    skipped l = record {
      valid = record {
        extent = omega (arith, v.extent);
        backed = v.backed;
        small = v.small;
        positive = v.positive;
      };
      data_eq =
          ap (take (b.len - n)) (sym (drop-drop n b.base (b.base + n) b.buf refl))
          ∙ sym (drop-take n b.len (b.len - n) (drop b.base b.buf) refl);
      size_eq = refl;
    }
