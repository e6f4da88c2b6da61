-- ===== src/Types/Range.antt =====
-- The integer conversions let exactly the numbers of their range through, and change none.
use sancus_core.Base.{
  ℕ, ◌-◌, ◌^◌, ◌<◌, Bool, true, false, ◌&&◌, not, ◌==◌, Option, none, some, ◌≡◌, refl, ap, ◌∙◌,
  arith, if◌then◌else◌, Bool-cases, inl, inr,
}
use native.Mathlib.Nat.{mod-eq_of_lt, one-le-pow}
use sancus_core.Base.Int.{ℤ, pos, negsuc, leb_ℤ}
use sancus_core.Base.Memory.{Bytes, get_byte}
use sancus_core.Base.Outcome.{Outcome, ok, abort}
use sancus_core.Time.{to_int}
use sancus_core.Types.{
  converted, get_converted, to_uint, drl, get_drl, url, get_url, uint, get_uint, Strto, get_ls,
  get_drls, get_urlls, get_ds, int_min, int_max,
}
use sancus_core.Types.Exact.{to_int-within, within-wider}

-- What is let through or aborts, and what is stored or left alone.
abbrev pub returned : Bool → ℤ → Outcome ℤ
returned test v = if test then ok v else abort

abbrev pub stored : Bool → ℤ → ℤ → Bool × Option ℤ
stored test v old = if test then (true, some v) else (false, some old)

-- Where a text is a whole number: it is not empty, and `strtol` stops at its end.
abbrev pub whole : Strto → Bytes → Bool
whole strto s = not (get_byte s 0 == 0) && (get_byte s (strto s).1 == 0)

abbrev pub between : ℤ → ℤ → ℤ → Bool
between a b v = leb_ℤ a v && leb_ℤ v b

-- The largest number of an unsigned type of `w` bits.
abbrev pub uint_max : ℕ → ℤ
uint_max w = pos (2 ^ w - 1)

to_uint-between : (w : ℕ) (v : ℤ) → between (pos 0) (uint_max w) v ≡ true → to_uint w v ≡ v
to_uint-between w (pos n) h = ap pos (mod-eq_of_lt below)
  where
    below : n < 2 ^ w
    below = ground (arith, one-le-pow w 2)
to_uint-between w (negsuc n) h = ground arith

module _ (test : Bool) (v fn : ℤ) (same : test ≡ true → fn ≡ v) where
  converted-returned : converted test fn ≡ returned test v
  converted-returned = elim (Bool-cases test) [ inl h ↦ rw (h, same h) refl | inr h ↦ rw h refl ]

  get_converted-stored : (old : ℤ) → get_converted test fn (some old) ≡ stored test v old
  get_converted-stored old = elim (Bool-cases test) [
    | inl h ↦ rw (h, same h) refl
    | inr h ↦ rw h refl
  ]

-- What a conversion to `int` or to an unsigned type owes, within bounds that the type holds.
to_int-between :
    (a b v : ℤ)
    → leb_ℤ int_min a ≡ true
    → leb_ℤ b int_max ≡ true
    → between a b v ≡ true
    → to_int v ≡ v
to_int-between a b v h k fits = to_int-within v (within-wider v a b int_min int_max h k fits)

to_uint-within :
    (w : ℕ) (a b v : ℤ)
    → leb_ℤ (pos 0) a ≡ true
    → leb_ℤ b (uint_max w) ≡ true
    → between a b v ≡ true
    → to_uint w v ≡ v
to_uint-within w a b v h k fits =
    to_uint-between w v (within-wider v a b (pos 0) (uint_max w) h k fits)

-- A conversion from text, by what the text says.
module _ (strto : Strto) (s : Bytes) (old : ℤ) where
  stored_text :
      (test : ℤ → Bool)
      → stored
          ((get_ls strto (some s)).0 && test (get_ls strto (some s)).1)
          (get_ls strto (some s)).1
          old
        ≡ stored (whole strto s && test (strto s).0) (strto s).0 old
  unfolding get_ls
  stored_text test = elim (Bool-cases (get_byte s 0 == 0)) [ inl h ↦ rw h refl | inr h ↦ rw h refl ]

  if_text :
      (test : ℤ → Bool) (stores : ℤ → Bool × Option ℤ)
      → ((x : ℤ) → stores x ≡ stored (test x) x old)
      → (if (get_ls strto (some s)).0 then stores (get_ls strto (some s)).1 else (false, some old))
        ≡ stored (whole strto s && test (strto s).0) (strto s).0 old
  if_text test stores each = elim (Bool-cases (get_ls strto (some s)).0) [
    | inl h ↦ rw h (each (get_ls strto (some s)).1 ∙ rw h at (stored_text test))
    | inr h ↦ rw h (rw h at (stored_text test))
  ]

no_text : (strto : Strto) → (get_ls strto none).0 ≡ false
unfolding get_ls
no_text strto = refl

-- For any number `v`, any bounds `a` and `b` that an `int` holds and `c` and `d` that an `unsigned`
-- holds, the conversions to `int` and to `unsigned` within them, and those to `uintN_t`, return `v`
-- itself where it is in the range and abort where it is not; those that store leave `v` and return
-- true where it is in the range, and else leave what there was and return false. Those from text do
-- so for the number that `strtol` reads, where the text is not empty and `strtol` stops at its end,
-- and else, or where the text is NULL, leave what there was and return false.
pub conversions_exact :
    (strto : Strto) (s : Bytes) (w : ℕ) (v a b c d old : ℤ)
    → leb_ℤ int_min a ≡ true
    → leb_ℤ b int_max ≡ true
    → leb_ℤ (pos 0) c ≡ true
    → leb_ℤ d (uint_max 32) ≡ true
    → (drl v a b ≡ returned (between a b v) v)
      × (url v c d ≡ returned (between c d v) v)
      × (uint w v ≡ returned (between (pos 0) (uint_max w) v) v)
      × (get_drl v a b (some old) ≡ stored (between a b v) v old)
      × (get_url v c d (some old) ≡ stored (between c d v) v old)
      × (get_uint w v (some old) ≡ stored (between (pos 0) (uint_max w) v) v old)
      × (get_drls strto (some s) a b (some old)
          ≡ stored (whole strto s && between a b (strto s).0) (strto s).0 old)
      × (get_urlls strto (some s) c d (some old)
          ≡ stored (whole strto s && between c d (strto s).0) (strto s).0 old)
      × (get_ds strto (some s) (some old)
          ≡ stored (whole strto s && between int_min int_max (strto s).0) (strto s).0 old)
      × (get_drls strto none a b (some old) ≡ (false, some old))
      × (get_urlls strto none c d (some old) ≡ (false, some old))
      × (get_ds strto none (some old) ≡ (false, some old))
unfolding drl url uint get_drl get_url get_uint get_drls get_urlls get_ds
conversions_exact strto s w v a b c d old h k l m = (
  converted-returned (between a b v) v (to_int v) (to_int-between a b v h k),
  converted-returned (between c d v) v (to_uint 32 v) (to_uint-within 32 c d v l m),
  converted-returned (between (pos 0) (uint_max w) v) v (to_uint w v) (to_uint-between w v),
  get_converted-stored (between a b v) v (to_int v) (to_int-between a b v h k) old,
  get_converted-stored (between c d v) v (to_uint 32 v) (to_uint-within 32 c d v l m) old,
  get_converted-stored (between (pos 0) (uint_max w) v) v (to_uint w v) (to_uint-between w v) old,
  if_text strto s old (between a b) (λ x. get_drl x a b (some old))
      (λ x. get_converted-stored (between a b x) x (to_int x) (to_int-between a b x h k) old),
  if_text strto s old (between c d) (λ x. get_url x c d (some old))
      (λ x.
        get_converted-stored (between c d x) x (to_uint 32 x) (to_uint-within 32 c d x l m) old),
  get_converted-stored _ (get_ls strto (some s)).1 (to_int (get_ls strto (some s)).1)
        (λ fits. to_int-within (get_ls strto (some s)).1 (ground arith)) old
      ∙ stored_text strto s old (between int_min int_max),
  rw (no_text strto) refl,
  rw (no_text strto) refl,
  rw (no_text strto) refl,
)
