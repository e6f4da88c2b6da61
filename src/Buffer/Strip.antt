-- ===== src/Buffer/Strip.antt =====
-- The operations that shorten the data by a count: `sancus_buffer_truncate` and
-- `sancus_buffer_stripn`.
use sancus_core.Base.{
  ℕ, ◌+◌, ◌-◌, ◌≤◌, ◌<◌, ◌≡◌, refl, sym, ap, ◌∙◌, true, false, [], ◌∷◌, arith, tests, length, take,
  drop, take-take, ltb, ◌==◌, Bool-cases, inl, inr, min,
}
use sancus_core.Base.Int.{pos}
use sancus_core.Base.Memory.Laws.{stored, store-ok, store-fault, length-stored, slice-stored_before}
use sancus_core.Base.Outcome.{ok, fault}
use sancus_core.Buffer.{Buffer, cut_to, cut_by, truncate, stripn, terminate}
use sancus_core.Buffer.Inv.{IsValid, contents, room, Cuts, no_wrap}

-- `b` with only the first `n` bytes, and a NUL behind them.
abbrev pub terminated : Buffer → Buffer
terminated b = record b { buf = stored b.buf (b.base + b.len) (0 ∷ []) }

module _ {b : Buffer} (v : IsValid b) where
  terminate_lem : b.base + b.len < b.size → terminate b ≡ ok (pos b.len, terminated b)
  unfolding terminate
  terminate_lem h = rw (
    (no_wrap v).1,
    store-ok b.buf (b.base + b.len) (0 ∷ []) (omega (arith, v.backed)),
    (no_wrap v).3,
  )

  terminate_full : b.base + b.len ≡ b.size → terminate b ≡ fault
  unfolding terminate
  terminate_full h =
      rw ((no_wrap v).1, store-fault b.buf (b.base + b.len) (0 ∷ []) (omega (arith, v.backed)))

  pub terminated-Cuts :
      (a : Buffer) (n : ℕ)
      → b.base + b.len < b.size
      → b.base ≤ a.base
      → b.size ≡ a.size
      → contents b ≡ take n (contents a)
      → Cuts a n (terminated b)
  terminated-Cuts a n h l e c = record {
    valid = record {
      extent = v.extent;
      backed = omega (arith, length-stored b.buf (b.base + b.len) (0 ∷ []) fits, v.backed);
      small = v.small;
      positive = v.positive;
    };
    data_eq =
        slice-stored_before b.buf (b.base + b.len) (0 ∷ []) b.base b.len (omega arith) fits ∙ c;
    base_le = l;
    size_eq = e;
  }
    where
      fits : b.base + b.len + 1 ≤ length b.buf
      fits = omega (arith, v.backed)

pub shorter-IsValid : {b : Buffer} (k : ℕ) → IsValid b → k ≤ b.len → IsValid (record b { len = k })
shorter-IsValid k v h = record {
  extent = omega (arith, v.extent);
  backed = v.backed;
  small = v.small;
  positive = v.positive;
}

module _ {b : Buffer} (v : IsValid b) where
  -- A window that starts where the old one does, and is no longer.
  shorter :
      (k : ℕ)
      → k ≤ b.len
      → b.base + k < b.size
      → (b' : Buffer) × (terminate (record b { len = k }) ≡ ok (pos k, b')) × Cuts b k b'
  shorter k h fits = (
    terminated (record b { len = k }),
    terminate_lem w fits,
    terminated-Cuts w b k fits (omega arith) refl (sym (take-take k b.len (drop b.base b.buf) h)),
  )
    where
      w : IsValid (record b { len = k })
      w = shorter-IsValid k v h

  emptied :
      (b' : Buffer) × (terminate (record b { base = 0; len = 0 }) ≡ ok (pos 0, b')) × Cuts b 0 b'
  emptied = (
    terminated (record b { base = 0; len = 0 }),
    terminate_lem w v.positive,
    terminated-Cuts w b 0 v.positive (omega arith) refl refl,
  )
    where
      w : IsValid (record b { base = 0; len = 0 })
      w = record { extent = omega arith; backed = v.backed; small = v.small; positive = v.positive }

-- Truncating a valid buffer to `n` bytes keeps the first `n` bytes of the data (all of them where
-- there are no more), writes a NUL behind them inside the array and returns how many are left,
-- provided that a byte is cut off or is free behind the data.
pub truncate_lem :
    {b : Buffer} (n : ℕ)
    → IsValid b
    → min n b.len < b.len + room b
    → (b' : Buffer) × (truncate b n ≡ ok (pos (min n b.len), b')) × Cuts b (min n b.len) b'
unfolding truncate
truncate_lem {b} n v h = elim (Bool-cases (min n b.len == 0)) [
  | inl e ↦
      let z : min n b.len ≡ 0 = ground arith in
      let cut : cut_to b n ≡ record b { base = 0; len = 0 } = cut_none z in rw (z, cut) (emptied v)
  | inr e ↦
      rw (cut_some (ground arith)) (shorter v (min n b.len) (omega arith) (omega (arith, v.extent)))
]
  where
    cut_none : min n b.len ≡ 0 → cut_to b n ≡ record b { base = 0; len = 0 }
    cut_none z = ground arith

    cut_some : 0 < min n b.len → cut_to b n ≡ record b { len = min n b.len }
    cut_some z = ground arith

-- Dropping the last `n` bytes of a valid buffer's data keeps the others (none where there are no
-- more than `n`), writes a NUL behind them inside the array and returns how many are left,
-- provided that `n` is not 0 or a byte is free behind the data.
pub stripn_lem :
    {b : Buffer} (n : ℕ)
    → IsValid b
    → 0 < n + room b
    → (b' : Buffer) × (stripn b n ≡ ok (pos (b.len - n), b')) × Cuts b (b.len - n) b'
unfolding stripn
stripn_lem {b} n v h = elim (Bool-cases (ltb n b.len)) [
  | inl e ↦ rw (cut_some e) (shorter v (b.len - n) (omega arith) (omega (tests, v.extent)))
  | inr e ↦ let z : b.len - n ≡ 0 = omega tests in rw (z, cut_none e) (emptied v)
]
  where
    cut_some : ltb n b.len ≡ true → cut_by b n ≡ record b { len = b.len - n }
    cut_some e = rw e (ap (λ (j : ℕ). record b { len = j }) (omega (tests, v.extent, v.small)))

    cut_none : ltb n b.len ≡ false → cut_by b n ≡ record b { base = 0; len = 0 }
    cut_none e = rw e

-- Where the data reaches the end of the array, truncating it to at least its length writes the NUL
-- one byte behind the array.
pub truncate-fault :
    {b : Buffer} (n : ℕ) → IsValid b → room b ≡ 0 → 0 < b.len → b.len ≤ n → truncate b n ≡ fault
unfolding truncate
truncate-fault {b} n v full some_data h = rw kept (terminate_full v (omega (arith, v.extent)))
  where
    kept : cut_to b n ≡ b
    kept = ground arith
