-- ===== src/Time/Laws.antt =====
-- What the arithmetic comes to on durations that are not negative: canonical timespecs of natural
-- numbers, read as a number of nanoseconds.
use sancus_core.Base.{
  ℕ, zero, suc, ◌+◌, ◌-◌, ◌*◌, ◌/◌, ◌%◌, ◌≤◌, ◌<◌, ◌≡◌, ◌∙◌, ap, ap₂, arith, tests, if◌then◌else◌,
  ◌==◌, ltb, Bool-cases, inl, inr, ltb→lt, le→leb, ltb-false→le, ltb-zero,
}
use sancus_core.Base.Int.{ℤ, pos, negsuc, ◌+ℤ◌, ◌-ℤ◌, ◌*ℤ◌, quot, neg}
use sancus_core.Base.Int.Laws.{
  +ℤ-pos, -ℤ-pos, -ℤ-pos_lt, *ℤ-pos, +ℤ-negsuc, pos-+ℤ-negsuc, negsuc-+ℤ, neg-zero, neg-suc,
}
use native.Mathlib.Nat.{add-zero}
use sancus_core.Time.{Timespec, sec_ns, sign, carried, fix, add, add_mixed, negate, sub}

-- `s` seconds and `n` nanoseconds.
abbrev pub ts : ℕ → ℕ → Timespec
ts s n = record { sec = pos s; nsec = pos n }

-- The canonical timespec of `t` nanoseconds.
abbrev pub of_ns : ℕ → Timespec
of_ns t = ts (t / sec_ns) (t % sec_ns)

abbrev pub sign_of : ℕ → ℤ
sign_of t = if t == 0 then pos 0 else pos 1

carried-ts : (s n : ℕ) → carried (ts s n) ≡ ts (s + n / sec_ns) (n % sec_ns)
unfolding carried quot
carried-ts s n = elim (Bool-cases (ltb 0 (n / sec_ns))) [
  | inl e ↦
      rw (e, +ℤ-pos, *ℤ-pos, -ℤ-pos n (n / sec_ns * sec_ns) (omega arith))
        (ap (λ (k : ℕ). ts (s + n / sec_ns) k) (omega arith))
  | inr e ↦ rw (e, ltb-zero n) (ap₂ ts (omega tests) (omega tests))
]

pub sign-ts : (s n : ℕ) → sign (ts s n) ≡ sign_of (s * sec_ns + n)
sign-ts s n = ground arith

-- `sancus_time_fix` on seconds and nanoseconds that are not negative gives the canonical form of
-- the same duration, and returns 0 or 1 as it is zero or not.
pub fix-of_ns : (s n : ℕ) → fix (ts s n) ≡ (sign_of (s * sec_ns + n), of_ns (s * sec_ns + n))
unfolding fix
fix-of_ns s n =
    rw (carried-ts s n, sign-ts)
      (rw same (ap (λ (t : Timespec). (k, t)) (ap₂ ts (omega arith) (omega arith))))
  where
    k : ℤ
    k = sign_of (s * sec_ns + n)

    same : (s + n / sec_ns) * sec_ns + n % sec_ns ≡ s * sec_ns + n
    same = omega arith

-- Adding two durations that are not negative gives their canonical sum, and its sign.
pub add-of_ns : (t u : ℕ) → add (of_ns t) (of_ns u) ≡ (sign_of (t + u), of_ns (t + u))
unfolding add
add-of_ns t u = rw (
  ltb-zero (t / sec_ns),
  ltb-zero (u / sec_ns),
  +ℤ-pos (t / sec_ns) (u / sec_ns),
  +ℤ-pos (t % sec_ns) (u % sec_ns),
  fix-of_ns (t / sec_ns + u / sec_ns) (t % sec_ns + u % sec_ns),
  sum,
)
  where
    sum : (t / sec_ns + u / sec_ns) * sec_ns + (t % sec_ns + u % sec_ns) ≡ t + u
    sum = omega arith

-- A difference of nanoseconds below 0 borrows a second.
pub quot_small : (k : ℕ) → suc k < sec_ns → quot (negsuc k) sec_ns ≡ pos 0
unfolding quot
quot_small k h = ground arith

borrow :
    (s k : ℕ)
    → suc k < sec_ns
    → carried (record { sec = pos (suc s); nsec = negsuc k }) ≡ ts s (sec_ns - k - 1)
unfolding carried neg ◌+ℤ◌ ◌-ℤ◌ ◌*ℤ◌
borrow s k h = rw (quot_small k h) (ground arith)

-- `sancus_time_sub` negates the seconds of its second argument where they are not 0.
abbrev pub minus : ℕ → ℕ → Timespec
minus u m = record { sec = negsuc u; nsec = pos m }

borrow_mixed :
    (s n u m : ℕ)
    → suc u < s
    → n < m
    → m < sec_ns
    → add_mixed (ts s n) (minus u m) ≡ ts (s - u - 2) (sec_ns + n - m)
unfolding add_mixed
borrow_mixed s n u m h k l =
    rw
      (
        +ℤ-negsuc s u (omega arith),
        -ℤ-pos_lt n m k,
        quot_small (m - n - 1) (omega arith),
        -ℤ-pos 1 0 (omega arith),
        *ℤ-pos 1 sec_ns,
        negsuc-+ℤ (m - n - 1) sec_ns (omega arith),
        neg-suc 0,
        -ℤ-pos (s - u - 1) 1 (omega arith),
        le→leb 1 (s - u - 1) (omega arith),
      )
      (ap₂ ts (omega arith) (omega arith))

plain_mixed :
    (s n u m : ℕ) → u < s → m ≤ n → add_mixed (ts s n) (minus u m) ≡ ts (s - u - 1) (n - m)
unfolding add_mixed
plain_mixed s n u m h k = rw (+ℤ-negsuc s u h, -ℤ-pos n m k, ltb-zero (n - m))

-- The reply of `sancus_time_fix` for a duration of `t` nanoseconds.
abbrev pub reply : ℕ → ℤ × Timespec
reply t = (sign_of t, of_ns t)

pub fix-reply : (s n t : ℕ) → s * sec_ns + n ≡ t → fix (ts s n) ≡ reply t
fix-reply s n t e = fix-of_ns s n ∙ ap (λ (k : ℕ). reply k) e

fix-borrow :
    (s j t : ℕ)
    → suc j < sec_ns
    → t + suc j ≡ suc s * sec_ns
    → fix (record { sec = pos (suc s); nsec = negsuc j }) ≡ reply t
unfolding fix
fix-borrow s j t h e =
    rw (borrow s j h, sign-ts)
      (rw total (ap (λ (r : Timespec). (sign_of t, r)) (ap₂ ts (omega arith) (omega arith))))
  where
    total : s * sec_ns + (sec_ns - j - 1) ≡ t
    total = omega arith

-- The difference of the nanoseconds where the seconds subtracted are 0.
sub_nanos :
    (s n k t : ℕ)
    → n < sec_ns
    → suc k < sec_ns
    → t + suc k ≡ s * sec_ns + n
    → fix (record { sec = pos s; nsec = pos n +ℤ negsuc k }) ≡ reply t
sub_nanos zero n k t h l e =
    rw (+ℤ-negsuc n k (omega arith)) (fix-reply 0 (n - k - 1) t (omega arith))
sub_nanos (suc s) n k t h l e = elim (Bool-cases (ltb k n)) [
  | inl b ↦ rw (+ℤ-negsuc n k (ltb→lt _ _ b)) (fix-reply (suc s) (n - k - 1) t (omega tests))
  | inr b ↦
      rw (pos-+ℤ-negsuc n k (ltb-false→le _ _ b))
        (fix-borrow s (k - n) t (omega tests) (omega tests))
]

pub negate-suc : (u m : ℕ) → negate (ts (suc u) m) ≡ minus u m
unfolding negate neg
negate-suc u m = ground arith

sub_parts :
    (u s n m t : ℕ)
    → n < sec_ns
    → m < sec_ns
    → t + (u * sec_ns + m) ≡ s * sec_ns + n
    → sub (ts s n) (ts u m) ≡ reply t
unfolding sub add negate neg
sub_parts zero s n zero t h l e =
    rw (neg-zero, ltb-zero s, +ℤ-pos s 0, +ℤ-pos n 0) (fix-reply (s + 0) (n + 0) t (omega arith))
sub_parts zero s n (suc k) t h l e =
    rw (neg-suc k, ltb-zero s, +ℤ-pos s 0, add-zero s) (sub_nanos s n k t h l (omega arith))
sub_parts (suc u) s n m t h l e = rw (negate-suc u m) (
    rw (ltb-zero s) (elim (Bool-cases (ltb n m)) [
      | inl b ↦
          rw (borrow_mixed s n u m (omega tests) (ltb→lt _ _ b) l)
            (fix-reply (s - u - 2) (sec_ns + n - m) t (omega tests))
      | inr b ↦
          rw (plain_mixed s n u m (omega tests) (ltb-false→le _ _ b))
            (fix-reply (s - u - 1) (n - m) t (omega tests))
    ]))

-- Of two durations that are not negative, subtracting one from one that is no shorter gives the
-- canonical difference and its sign.
pub sub-of_ns : (t u : ℕ) → u ≤ t → sub (of_ns t) (of_ns u) ≡ reply (t - u)
sub-of_ns t u h =
    sub_parts (u / sec_ns) (t / sec_ns) (t % sec_ns) (u % sec_ns) (t - u) (omega arith)
      (omega arith) (omega arith)
