-- ===== src/Logger/Hexdump/Rows.antt =====
-- The rows of a hexadecimal dump come to an end.
use sancus_core.Base.{
  ℕ, zero, suc, ◌+◌, ◌≤◌, ◌<◌, Option, none, some, [], ◌∷◌, ltb, arith, length, length-drop, drop,
  take, Bool-cases, inl, inr,
}
use sancus_core.Base.Int.{ℤ, pos, ltb_ℤ}
use sancus_core.Base.Memory.{Bytes}
use sancus_core.Base.Outcome.{Outcome, ok, fault, abort, ◌>>=◌}
use sancus_core.Buffer.{Buffer}
use sancus_core.Logger.Hexdump.{Formats, taken, row, rows, cleared, dump_rows}

-- A run that does not end for want of fuel.
abbrev pub Ends : Outcome (Option ℤ) → Type 0
Ends (ok (some rc)) = Unit
Ends (ok none) = ⊥
Ends fault = Unit
Ends abort = Unit

>>=-Ends :
    {A : Type 0} (o : Outcome A) (f : A → Outcome (Option ℤ))
    → ((a : A) → Ends (f a))
    → Ends (o >>= f)
>>=-Ends (ok a) f h = h a
>>=-Ends fault f h = tt
>>=-Ends abort f h = tt

taken-positive : (width len : ℕ) → 0 < len → 0 < taken width len
taken-positive zero len h = h
taken-positive (suc width) len h = elim (Bool-cases (ltb (suc width) len)) [
  | inl e ↦ rw e (omega arith)
  | inr e ↦ rw e h
]

rows-Ends :
    (write : Option Buffer → Outcome ℤ) (formats : Formats) (width fuel off : ℕ)
    (ob : Option Buffer) (s : Bytes) (rc : ℤ)
    → length s ≤ fuel
    → Ends (rows write formats width fuel off ob s rc)
unfolding rows
rows-Ends write formats width fuel off ob [] rc h = tt
rows-Ends write formats width zero off ob (c ∷ s) rc h = absurd (omega arith)
rows-Ends write formats width (suc fuel) off ob (c ∷ s) rc h =
    let n : ℕ = taken width (length (c ∷ s)) in
    let some_taken = taken-positive width (length (c ∷ s)) (omega arith) in
    >>=-Ends (row formats width off ob (take n (c ∷ s))) _ (λ full. >>=-Ends (write full) _ (λ rc'.
      elim (Bool-cases (ltb_ℤ rc' (pos 0))) [
        | inl e ↦ rw e tt
        | inr e ↦ rw e (
            >>=-Ends (cleared full) _ (λ empty.
              rows-Ends write formats width fuel (off + n) empty (drop n (c ∷ s)) rc'
                (omega (arith, length-drop n (c ∷ s)))))
      ]))

-- For any width, none or one that is not a divisor, and any writer and formats, the loop over the
-- rows ends: the length of the data is fuel enough.
pub dump_rows_lem :
    (write : Option Buffer → Outcome ℤ) (formats : Formats) (width : ℕ) (s : Bytes) (rc : ℤ)
    → Ends (dump_rows write formats width s rc)
unfolding dump_rows
dump_rows_lem write formats width [] rc = >>=-Ends (write none) _ (λ rc'. tt)
dump_rows_lem write formats width (c ∷ s) rc =
    rows-Ends write formats width (length (c ∷ s)) 0 _ (c ∷ s) rc (omega arith)
