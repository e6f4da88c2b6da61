-- ===== src/Types/Exact.antt =====
-- A conversion that is let through does not change the number.
use sancus_core.Base.{◌≡◌, true, false, some, if◌then◌else◌, arith, Bool-cases, inl, inr}
use sancus_core.Base.Int.{ℤ, pos, negsuc, leb_ℤ}
use sancus_core.Base.Outcome.{ok, abort}
use sancus_core.Time.{to_int}
use sancus_core.Time.Compare.{to_int-pos, to_int-negsuc}
use sancus_core.Types.{within, drl, get_drl, int_min, int_max}

pub to_int-within : (v : ℤ) → within v int_min int_max ≡ true → to_int v ≡ v
to_int-within (pos n) h = to_int-pos n (ground arith)
to_int-within (negsuc n) h = to_int-negsuc n (ground arith)

pub within-wider :
    (v a b c d : ℤ)
    → leb_ℤ c a ≡ true
    → leb_ℤ b d ≡ true
    → within v a b ≡ true
    → within v c d ≡ true
within-wider v a b c d h k l = ground arith

-- Within bounds that an `int` holds, the conversions to `int` give the number itself where it is in
-- the range; where it is not, one aborts and the other returns false and stores nothing.
pub drl_lem :
    (v a b old : ℤ)
    → leb_ℤ int_min a ≡ true
    → leb_ℤ b int_max ≡ true
    → (drl v a b ≡ (if within v a b then ok v else abort))
      × (get_drl v a b (some old) ≡ (if within v a b then (true, some v) else (false, some old)))
unfolding drl get_drl
drl_lem v a b old h k = elim (Bool-cases (within v a b)) [
  | inl e ↦
      let same = to_int-within v (within-wider v a b int_min int_max h k e) in
      (rw (e, same), rw (e, same))
  | inr e ↦ (rw e, rw e)
]
