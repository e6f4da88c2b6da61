-- ===== src/Logger/Trim.antt =====
-- What a message is trimmed to.
use sancus_core.Base.{
  ℕ, zero, suc, ◌+◌, ◌-◌, ◌≤◌, ◌<◌, ◌≡◌, ◌∙◌, refl, ap, true, false, ◌==◌, if◌then◌else◌, none,
  some, arith, Bool-cases, inl, inr, ◌⊎◌, take, drop, take-take, ==_iff,
}
use sancus_core.Base.Memory.{Bytes, get_byte}
use sancus_core.Buffer.{Buffer}
use sancus_core.Buffer.Inv.{contents}
use sancus_core.Logger.{blank, trim_from, trim}

-- The text ends with the last byte that is not blank.
pub record Trimmed (byte : ℕ → ℕ) (n k : ℕ) : Type 0 where
  pub within : k ≤ n
  pub dropped : (i : ℕ) → k ≤ i → i < n → blank (byte i) ≡ true
  pub ends : (k ≡ 0) ⊎ ((0 < k) × (blank (byte (k - 1)) ≡ false))

trim_from_lem :
    (m : Bytes) (base n : ℕ) → Trimmed (λ i. get_byte m (base + i)) n (trim_from m base n)
unfolding trim_from
trim_from_lem m base zero = record {
  within = omega arith;
  dropped = λ i h l. absurd (omega arith);
  ends = inl refl;
}
trim_from_lem m base (suc n) = elim (Bool-cases (blank (get_byte m (base + n)))) [
  | inl e ↦ rw e (more e (trim_from_lem m base n))
  | inr e ↦ rw e (record {
    within = omega arith;
    dropped = λ i h l. absurd (omega arith);
    ends = inr (omega arith, ap (λ (i : ℕ). blank (get_byte m (base + i))) last ∙ e);
  })
]
  where
    last : suc n - 1 ≡ n
    last = omega arith

    more :
        {k : ℕ}
        → blank (get_byte m (base + n)) ≡ true
        → Trimmed (λ i. get_byte m (base + i)) n k
        → Trimmed (λ i. get_byte m (base + i)) (suc n) k
    more {k} e t = record {
      within = omega (arith, t.within);
      dropped = λ i h l. elim (Bool-cases (i == n)) [
        | inl f ↦ rw ((==_iff i n).0 f) e
        | inr f ↦ t.dropped i h (ground arith)
      ];
      ends = t.ends;
    }

-- Of a buffer's data, `log_buffer_trim` gives the bytes up to the last one that is neither a space,
-- nor a tab, nor a line feed, and NULL where there is none.
pub trim_lem :
    (b : Buffer)
    → Trimmed (λ i. get_byte b.buf (b.base + i)) b.len (trim (some b)).1
      × ((trim (some b)).0
          ≡ (if (trim (some b)).1 == 0 then none else some (take (trim (some b)).1 (contents b))))
unfolding trim
trim_lem b =
    let t = trim_from_lem b.buf b.base b.len in
    (t, rw (take-take (trim_from b.buf b.base b.len) b.len (drop b.base b.buf) t.within))
