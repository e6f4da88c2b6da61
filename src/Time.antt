-- ===== src/Time.antt =====
-- src/sancus/time.c and include/sancus/time.h: durations as `struct timespec`. A negative duration
-- has its sign on the seconds, or on the nanoseconds where the seconds are 0. `long` and `time_t`
-- are integers: their overflow, which C leaves undefined, is not modelled. The conversions through
-- `double` are not modelled.
pub mod Laws
pub mod Compare
pub mod Defects
mod Tests
use sancus_core.Base.{
  ℕ, ◌+◌, ◌-◌, ◌*◌, ◌/◌, ◌%◌, ◌^◌, Bool, true, false, not, ◌&&◌, xor, ◌||◌, ltb, leb, ◌==◌,
  if◌then◌else◌,
}
use sancus_core.Base.Int.{ℤ, pos, negsuc, ◌+ℤ◌, ◌-ℤ◌, ◌*ℤ◌, quot, neg, ltb_ℤ, leb_ℤ, eqb_ℤ, neg_ℕ}
use sancus_core.Base.Word.{signed32}

-- `struct timespec`
pub record Timespec : Type 0 where
  pub sec : ℤ
  pub nsec : ℤ

-- `SEC_TO_NS(1)`, `MS_TO_NS(1)` and `SEC_TO_MS(1)`
abbrev pub sec_ns : ℕ
sec_ns = 1000000000

abbrev pub ms_ns : ℕ
ms_ns = 1000000

abbrev pub sec_ms : ℕ
sec_ms = 1000

-- The sign that `sancus_time_fix` returns.
abbrev pub sign : Timespec → ℤ
sign t =
    if ltb_ℤ t.sec (pos 0) || ltb_ℤ t.nsec (pos 0)
    then negsuc 0
    else if eqb_ℤ t.sec (pos 0) && eqb_ℤ t.nsec (pos 0)
    then pos 0
    else pos 1

-- `sancus_time_fix`; `carried` is what it leaves in `*ts`.
unfoldable pub carried : Timespec → Timespec
carried t =
    let d = quot t.nsec sec_ns in
    let k = neg d +ℤ pos 1 in
    if ltb_ℤ (pos 0) d
    then record { sec = t.sec +ℤ d; nsec = t.nsec -ℤ d *ℤ sec_ns }
    else if ltb_ℤ t.nsec (pos 0)
    then (if not (eqb_ℤ k (pos 1)) || not (eqb_ℤ t.sec (pos 0))
        then record { sec = t.sec -ℤ k; nsec = t.nsec +ℤ k *ℤ sec_ns }
        else t)
    else t

unfoldable pub fix : Timespec → ℤ × Timespec
fix t = (sign (carried t), carried t)

-- `time_add` where exactly one of the two has negative seconds.
unfoldable pub add_mixed : Timespec → Timespec → Timespec
add_mixed a b =
    let s = a.sec +ℤ b.sec in
    let n = a.nsec -ℤ b.nsec in
    let d = pos 1 -ℤ quot n sec_ns in
    let n' = n +ℤ d *ℤ sec_ns in
    if ltb_ℤ n (pos 0)
    then (if eqb_ℤ s (neg d)
        then record { sec = pos 0; nsec = neg n' }
        else record { sec = if leb_ℤ d s then s -ℤ d else s +ℤ d; nsec = n' })
    else record { sec = s; nsec = n }

-- `time_add`, and `sancus_time_add`
unfoldable pub add : Timespec → Timespec → ℤ × Timespec
add a b =
    if xor (ltb_ℤ a.sec (pos 0)) (ltb_ℤ b.sec (pos 0))
    then fix (add_mixed a b)
    else fix (record { sec = a.sec +ℤ b.sec; nsec = a.nsec +ℤ b.nsec })

-- `sancus_time_neg`
unfoldable pub negate : Timespec → Timespec
negate a =
    if eqb_ℤ a.sec (pos 0) then record a { nsec = neg a.nsec } else record a { sec = neg a.sec }

-- `sancus_time_sub`
unfoldable pub sub : Timespec → Timespec → ℤ × Timespec
sub a b = add a (negate b)

-- `sancus_time_add2` and `sancus_time_sub2`
abbrev pub add2 : Timespec → Timespec → Timespec
add2 a b = (add a b).1

abbrev pub sub2 : Timespec → Timespec → Timespec
sub2 a b = (sub a b).1

-- `(int)` of a `long`
abbrev pub to_int : ℤ → ℤ
to_int (pos n) = signed32 (n % 2 ^ 32)
to_int (negsuc n) = signed32 ((2 ^ 32 - 1 - n % 2 ^ 32) % 2 ^ 32)

-- `sancus_time_cmp`
unfoldable pub cmp : Timespec → Timespec → ℤ
cmp a b =
    let s = a.sec -ℤ b.sec in
    to_int (
      if eqb_ℤ s (pos 0)
      then (if ltb_ℤ a.sec (pos 0) then b.nsec -ℤ a.nsec else a.nsec -ℤ b.nsec)
      else s)

-- `sancus_time_is_eq`, `_is_zero`, `_is_lt`, `_is_lt_zero`, `_is_gt`, `_is_gt_zero`
abbrev pub is_eq : Timespec → Timespec → Bool
is_eq a b = eqb_ℤ a.sec b.sec && eqb_ℤ a.nsec b.nsec

abbrev pub is_zero : Timespec → Bool
is_zero a = eqb_ℤ a.sec (pos 0) && eqb_ℤ a.nsec (pos 0)

unfoldable pub is_lt : Timespec → Timespec → Bool
is_lt a b = ltb_ℤ (cmp a b) (pos 0)

abbrev pub is_lt_zero : Timespec → Bool
is_lt_zero a = ltb_ℤ a.sec (pos 0) || ltb_ℤ a.nsec (pos 0)

unfoldable pub is_gt : Timespec → Timespec → Bool
is_gt a b = ltb_ℤ (pos 0) (cmp a b)

abbrev pub is_gt_zero : Timespec → Bool
is_gt_zero a = ltb_ℤ (pos 0) a.sec && ltb_ℤ (pos 0) a.nsec

-- `sancus_time_new`, `sancus_time_new_ms` and `sancus_time_add_ms`
unfoldable pub new : ℤ → ℤ → Timespec
new s n = (fix (record { sec = s; nsec = n })).1

unfoldable pub new_ms : ℤ → Timespec
new_ms ms = new (pos 0) (ms *ℤ ms_ns)

unfoldable pub add_ms : Timespec → ℤ → ℤ × Timespec
add_ms a ms = add a (new_ms ms)

-- `sancus_time_elapsed` and `sancus_time_left`
abbrev pub zero_ts : Timespec
zero_ts = record { sec = pos 0; nsec = pos 0 }

unfoldable pub elapsed : Timespec → Timespec → Timespec
elapsed now since = if is_gt now since then sub2 now since else zero_ts

unfoldable pub left : Timespec → Timespec → Timespec
left now until = if is_gt until now then sub2 until now else zero_ts

-- `LONG_MIN` and `LONG_MAX`
abbrev pub long_min : ℤ
long_min = negsuc (2 ^ 63 - 1)

abbrev pub long_max : ℤ
long_max = pos (2 ^ 63 - 1)

-- `NS_TO_MS_ROUNDED`
abbrev pub ns_to_ms_rounded : ℤ → ℤ
ns_to_ms_rounded n = quot (n +ℤ pos (ms_ns / 2)) ms_ns

-- `sancus_time_ts_to_ms`
unfoldable pub ts_to_ms : Timespec → ℤ
ts_to_ms t =
    if leb_ℤ t.sec (quot long_min sec_ms)
    then long_min
    else if leb_ℤ (quot long_max sec_ms) t.sec
    then long_max
    else if ltb_ℤ t.sec (pos 0)
    then t.sec *ℤ sec_ms -ℤ ns_to_ms_rounded t.nsec
    else t.sec *ℤ sec_ms +ℤ ns_to_ms_rounded t.nsec
