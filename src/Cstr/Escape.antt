-- ===== src/Cstr/Escape.antt =====
-- The escape of one byte.
use sancus_core.Base.{
  ℕ, zero, suc, ◌<◌, ◌≡◌, Bool, true, [], ◌∷◌, ◌++◌, arith, ltb, ◌==◌, ◌||◌, ◌&&◌, length, inl, inr,
  ◌⊎◌, Bool-cases, ==_iff,
}
use sancus_core.Base.Memory.{Bytes}
use sancus_core.Cstr.{entry, width, emitted}

abbrev pub escape : ℕ → Bytes
escape c = emitted c (width c)

pub width-cases : (c : ℕ) → (width c ≡ 1) ⊎ ((width c ≡ 2) ⊎ (width c ≡ 4))
unfolding width
width-cases c = elim (Bool-cases (entry c == 0)) [
  | inl e ↦ inr (inr (ground arith))
  | inr e ↦ elim (Bool-cases (ltb c 32 || (entry c == 34) || (entry c == 92))) [
    | inl f ↦ inr (inl (rw (e, f)))
    | inr f ↦ inl (rw (e, f))
  ]
]

pub length-escape : (c : ℕ) → length (escape c) ≡ width c
unfolding emitted
length-escape c = elim (width-cases c) [ inl e ↦ rw e | inr (inl e) ↦ rw e | inr (inr e) ↦ rw e ]

-- The text of several bytes.
abbrev pub escapes : Bytes → Bytes
escapes [] = []
escapes (c ∷ cs) = escape c ++ escapes cs

-- A property of every byte, by computing it.
abbrev pub below : (ℕ → Bool) → ℕ → Bool
below p zero = true
below p (suc n) = p n && below p n

pub below-lt : (p : ℕ → Bool) (n c : ℕ) → below p n ≡ true → c < n → p c ≡ true
below-lt p zero c h l = elim l [ ]
below-lt p (suc n) c h l = elim (Bool-cases (c == n)) [
  | inl e ↦ rw ((==_iff c n).0 e) (ground arith)
  | inr e ↦ below-lt p n c (ground arith) (ground arith)
]
