-- ===== src/Time/Defects.antt =====
-- Where the arithmetic departs from the durations that its arguments stand for.
use sancus_core.Base.{
  ℕ, suc, ◌+◌, ◌-◌, ◌*◌, ◌/◌, ◌≤◌, ◌<◌, ◌≡◌, ◌≢◌, refl, ap, false, arith, if◌then◌else◌, ltb-zero,
}
use sancus_core.Base.Int.{ℤ, pos, negsuc, ◌+ℤ◌, ◌-ℤ◌, ◌*ℤ◌, quot, neg, ltb_ℤ}
use sancus_core.Base.Int.Laws.{
  -ℤ-pos, -ℤ-pos_lt, +ℤ-pos, *ℤ-pos, +ℤ-negsuc, negsuc-+ℤ, neg-suc, neg-negsuc,
}
use sancus_core.Time.{Timespec, sec_ns, carried, fix, add, add_mixed, negate, sub, is_gt_zero}
use sancus_core.Time.Laws.{ts, minus, quot_small, negate-suc, fix-reply}

-- The nanoseconds that a timespec stands for: a negative one has its sign on the seconds.
abbrev pub value : Timespec → ℤ
value t = if ltb_ℤ t.sec (pos 0) then t.sec *ℤ sec_ns -ℤ t.nsec else t.sec *ℤ sec_ns +ℤ t.nsec

-- `sancus_time_neg` is its own inverse.
pub negate-negate : (t : Timespec) → negate (negate t) ≡ t
unfolding negate neg
negate-negate t = ground arith

quot-negsuc : (n q : ℕ) → suc n / sec_ns ≡ suc q → quot (negsuc n) sec_ns ≡ negsuc q
unfolding quot
quot-negsuc n q e = rw e (ground arith)

carried_negative :
    (n q : ℕ)
    → suc n / sec_ns ≡ suc q
    → carried (record { sec = pos 0; nsec = negsuc n })
      ≡ record { sec = negsuc (suc q); nsec = pos ((suc q + 1) * sec_ns - suc n) }
unfolding carried
carried_negative n q e =
    rw
      (
        quot-negsuc n q e,
        neg-negsuc q,
        +ℤ-pos (suc q) 1,
        *ℤ-pos (suc q + 1) sec_ns,
        -ℤ-pos_lt 0 (suc q + 1) (omega arith),
        negsuc-+ℤ n ((suc q + 1) * sec_ns) (omega arith),
      )
      (ground arith)

value_negative : (q r : ℕ) → negsuc (suc q) *ℤ sec_ns -ℤ pos r ≡ negsuc ((q + 2) * sec_ns + r - 1)
unfolding ◌-ℤ◌ ◌*ℤ◌
value_negative q r = ground arith

differs :
    (n q : ℕ)
    → suc n < (q + 2) * sec_ns
    → negsuc (suc q) *ℤ sec_ns -ℤ pos ((suc q + 1) * sec_ns - suc n) ≢ negsuc n
differs n q h = rw value_negative (ground arith)

-- The canonical form that `sancus_time_fix` gives to a second or more before zero, written in
-- nanoseconds, stands for another duration.
pub fix_negative :
    (n : ℕ) → sec_ns ≤ suc n → value (fix (record { sec = pos 0; nsec = negsuc n })).1 ≢ negsuc n
unfolding fix
fix_negative n h =
    rw (carried_negative n (suc n / sec_ns - 1) (omega arith))
      (differs n (suc n / sec_ns - 1) (omega arith))

sub_same :
    (s n m : ℕ) → n < m → m < sec_ns → add_mixed (ts (suc s) n) (minus s m) ≡ ts 1 (sec_ns + n - m)
unfolding add_mixed
sub_same s n m h k =
    rw
      (
        +ℤ-negsuc (suc s) s (omega arith),
        -ℤ-pos_lt n m h,
        quot_small (m - n - 1) (omega arith),
        -ℤ-pos 1 0 (omega arith),
        *ℤ-pos 1 sec_ns,
        negsuc-+ℤ (m - n - 1) sec_ns (omega arith),
        neg-suc 0,
      )
      (let z : suc s - s - 1 ≡ 0 = omega arith in
        rw (z, +ℤ-pos 0 1) (ap (λ (r : ℕ). ts 1 r) (omega arith)))

-- Where two durations have the same seconds, not 0, and the second has more nanoseconds, their
-- difference is negative, and `sancus_time_sub` returns 1, its sign for a positive duration.
pub sub_borrow : (s n m : ℕ) → n < m → m < sec_ns → (sub (ts (suc s) n) (ts (suc s) m)).0 ≡ pos 1
unfolding sub add
sub_borrow s n m h k = rw (negate-suc s m) (
    rw (ltb-zero (suc s))
      (rw (sub_same s n m h k, fix-reply 1 (sec_ns + n - m) _ refl) (ground arith)))

-- A whole number of seconds is never greater than zero for `sancus_time_is_gt_zero`.
pub is_gt_zero_whole : (s : ℕ) → is_gt_zero (ts s 0) ≡ false
is_gt_zero_whole s = ground arith
