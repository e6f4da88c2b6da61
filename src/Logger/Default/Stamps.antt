-- ===== src/Logger/Default/Stamps.antt =====
-- The times that the default back end prints.
use sancus_core.Base.{ℕ, ◌-◌, ◌≤◌, ◌<◌, false, List, [], ◌∷◌, map, ◌≡◌, refl, ap, ap₂, arith, ltb}
use sancus_core.Base.Int.{ℤ}
use sancus_core.Time.{Timespec, is_zero, zero_ts}
use sancus_core.Time.Laws.{of_ns, sub-of_ns}
use sancus_core.Time.Compare.{limit, is_lt-of_ns}
use sancus_core.Logger.Default.{Times, stamp}

-- The times printed by writes at several times, one after the other.
unfoldable pub stamps : Times → List Timespec → List (Timespec × Timespec)
stamps s [] = []
stamps s (ts ∷ rest) = (stamp s ts).0 ∷ stamps (stamp s ts).1 rest

-- Before the first write.
abbrev pub unset : Times
unset = record { first = zero_ts; prev = zero_ts }

-- Times that do not go back, nor beyond what a comparison can tell.
abbrev pub Ascends : ℕ → List ℕ → Type 0
Ascends t [] = t < limit
Ascends t (u ∷ us) = (t ≤ u) × Ascends u us

-- The time since the first write and since the one before.
abbrev pub since : ℕ → ℕ → List ℕ → List (Timespec × Timespec)
since first prev [] = []
since first prev (t ∷ ts) = (of_ns (t - first), of_ns (t - prev)) ∷ since first t ts

Ascends-limit : (t : ℕ) (ts : List ℕ) → Ascends t ts → t < limit
Ascends-limit t [] h = h
Ascends-limit t (u ∷ us) h = omega (arith, Ascends-limit u us (h.1))

later : (t : ℕ) → 0 < t → is_zero (of_ns t) ≡ false
later t h = ground arith

stamp_later :
    (first prev t : ℕ)
    → 0 < prev
    → first ≤ prev
    → prev ≤ t
    → t < limit
    → stamp (record { first = of_ns first; prev = of_ns prev }) (of_ns t)
      ≡ ((of_ns (t - first), of_ns (t - prev)), record { first = of_ns first; prev = of_ns t })
unfolding stamp
stamp_later first prev t h k l m =
    rw (later prev h, is_lt-of_ns t first m (omega arith), forward)
      (ap₂ (λ (a b : Timespec). ((a, b), record { first = of_ns first; prev = of_ns t }))
        (ap (λ (r : ℤ × Timespec). r.1) (sub-of_ns t first (omega arith)))
        (ap (λ (r : ℤ × Timespec). r.1) (sub-of_ns t prev l)))
  where
    forward : ltb t first ≡ false
    forward = ground arith

stamps_from :
    (first prev : ℕ) (ts : List ℕ)
    → 0 < prev
    → first ≤ prev
    → Ascends prev ts
    → stamps (record { first = of_ns first; prev = of_ns prev }) (map of_ns ts)
      ≡ since first prev ts
unfolding stamps
stamps_from first prev [] h k l = refl
stamps_from first prev (t ∷ ts) h k l =
    rw (stamp_later first prev t h k (l.0) (Ascends-limit t ts (l.1))) (
      ap (λ (r : List (Timespec × Timespec)). (of_ns (t - first), of_ns (t - prev)) ∷ r)
        (stamps_from first t ts (omega arith) (omega arith) (l.1)))

-- Writes at times that do not go back, the first of them later than 0, print zero at first, and then
-- exactly the time since the first write and the time since the last.
pub stamps_lem :
    (t : ℕ) (ts : List ℕ)
    → 0 < t
    → Ascends t ts
    → stamps unset (map of_ns (t ∷ ts)) ≡ (zero_ts, zero_ts) ∷ since t t ts
unfolding stamps stamp
stamps_lem t ts h k =
    ap (λ (r : List (Timespec × Timespec)). (zero_ts, zero_ts) ∷ r)
      (stamps_from t t ts h (omega arith) k)
