-- ===== src/Time/Compare.antt =====
-- Comparison, and the durations that depend on it.
use sancus_core.Base.{
  ℕ, ◌-◌, ◌*◌, ◌/◌, ◌%◌, ◌^◌, ◌<◌, ◌≡◌, ap, arith, tests, if◌then◌else◌, ltb, Bool-cases, inl, inr,
  ltb-zero, ◌==◌,
}
use sancus_core.Base.Int.{ℤ, pos, negsuc, sub_ℕ, eqb_ℤ, ◌-ℤ◌}
use sancus_core.Time.{Timespec, sec_ns, to_int, cmp, is_gt, is_lt, elapsed, left, zero_ts}
use sancus_core.Time.Laws.{ts, of_ns, sub-of_ns}

pub to_int-pos : (n : ℕ) → n < 2 ^ 31 → to_int (pos n) ≡ pos n
to_int-pos n h = ground arith

pub to_int-negsuc : (n : ℕ) → n < 2 ^ 31 → to_int (negsuc n) ≡ negsuc n
to_int-negsuc n h = ground arith

to_int-sub : (a b : ℕ) → a < 2 ^ 31 → b < 2 ^ 31 → to_int (pos a -ℤ pos b) ≡ sub_ℕ a b
unfolding ◌-ℤ◌
to_int-sub a b h k = ground arith

-- Durations of less than 2 ^ 31 seconds.
abbrev pub limit : ℕ
limit = 2 ^ 31 * sec_ns

sub_zero : (s u : ℕ) → eqb_ℤ (pos s -ℤ pos u) (pos 0) ≡ (s == u)
unfolding ◌-ℤ◌
sub_zero s u = ground arith

cmp_parts :
    (s n u m : ℕ)
    → s < 2 ^ 31
    → n < 2 ^ 31
    → u < 2 ^ 31
    → m < 2 ^ 31
    → cmp (ts s n) (ts u m) ≡ (if s == u then sub_ℕ n m else sub_ℕ s u)
unfolding cmp
cmp_parts s n u m a b c d = elim (Bool-cases (s == u)) [
  | inl e ↦ rw (sub_zero s u, e, ltb-zero s, to_int-sub n m b d)
  | inr e ↦ rw (sub_zero s u, e, to_int-sub s u a c)
]

-- Of two canonical durations of less than 2 ^ 31 seconds, the first is greater for the code exactly
-- when it is.
pub is_gt-of_ns : (t u : ℕ) → t < limit → u < limit → is_gt (of_ns t) (of_ns u) ≡ ltb u t
unfolding is_gt
is_gt-of_ns t u h k =
    rw
      (cmp_parts (t / sec_ns) (t % sec_ns) (u / sec_ns) (u % sec_ns) (omega arith) (omega arith)
        (omega arith) (omega arith))
      (ground arith)

-- `sancus_time_elapsed` of two canonical durations of less than 2 ^ 31 seconds is the canonical
-- form of `now - since`, or of zero where `since` is not in the past.
pub elapsed-of_ns :
    (now since : ℕ)
    → now < limit
    → since < limit
    → elapsed (of_ns now) (of_ns since) ≡ of_ns (now - since)
unfolding elapsed
elapsed-of_ns now since h k = rw (is_gt-of_ns now since h k) (elim (Bool-cases (ltb since now)) [
  | inl e ↦ rw e (ap (λ (r : ℤ × Timespec). r.1) (sub-of_ns now since (omega tests)))
  | inr e ↦ rw e (none_left (now - since) (omega tests))
])
  where
    none_left : (d : ℕ) → d ≡ 0 → zero_ts ≡ of_ns d
    none_left d z = rw z

-- `sancus_time_left` likewise is the canonical form of `until - now`, or of zero.
pub left-of_ns :
    (now until : ℕ)
    → now < limit
    → until < limit
    → left (of_ns now) (of_ns until) ≡ of_ns (until - now)
unfolding left elapsed
left-of_ns now until h k = elapsed-of_ns until now k h

-- The first is less for the code exactly when it is.
pub is_lt-of_ns : (t u : ℕ) → t < limit → u < limit → is_lt (of_ns t) (of_ns u) ≡ ltb t u
unfolding is_lt
is_lt-of_ns t u h k =
    rw
      (cmp_parts (t / sec_ns) (t % sec_ns) (u / sec_ns) (u % sec_ns) (omega arith) (omega arith)
        (omega arith) (omega arith))
      (ground arith)
