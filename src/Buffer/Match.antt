-- ===== src/Buffer/Match.antt =====
-- The operation that drops bytes of a set at the end of the data: `sancus_buffer__stripchar`.
use sancus_core.Base.{
  ℕ, zero, suc, ◌+◌, ◌-◌, ◌≤◌, ◌<◌, ◌≡◌, refl, sym, Bool, true, false, some, arith, tests, length,
  drop, take-take, take-all, ltb, Bool-cases, inl, inr, ltb-zero,
}
use sancus_core.Base.Int.{pos}
use sancus_core.Base.Memory.{Bytes, get_byte}
use sancus_core.Base.Memory.Laws.{load_front, get_byte-slice}
use sancus_core.Base.Outcome.{ok}
use sancus_core.Buffer.{Buffer, stripchar, count_strip, one_of}
use sancus_core.Buffer.Strip.{shorter-IsValid}
use sancus_core.Buffer.Inv.{IsValid, contents, Cuts}

-- `k` bytes at the end of `xs` (of length `n`) are those that stripping the set `chars` drops: each
-- is in the set; with `many` the byte before them is not; without, at most one is dropped, and none
-- only if the last byte is not in the set.
pub record Matched (chars : Bytes) (many : Bool) (xs : ℕ → ℕ) (n k : ℕ) : Type 0 where
  pub within : k ≤ n
  pub hit : (i : ℕ) → n ≤ i + k → i < n → one_of (xs i) chars ≡ true
  pub stop : many ≡ true → k < n → one_of (xs (n - k - 1)) chars ≡ false
  pub once : many ≡ false → k ≤ 1
  pub miss : k ≡ 0 → 0 < n → one_of (xs (n - 1)) chars ≡ false

module _ (chars : Bytes) (xs : ℕ → ℕ) where
  -- The test of a byte, at an equal index.
  moved : {i j : ℕ} (t : Bool) → j ≡ i → one_of (xs i) chars ≡ t → one_of (xs j) chars ≡ t
  moved t e h = rw e h

  match_none : (many : Bool) (n : ℕ) → one_of (xs n) chars ≡ false → Matched chars many xs (suc n) 0
  match_none many n h = record {
    within = omega arith;
    hit = λ i h k. absurd (omega arith);
    stop = λ e k. moved false (omega arith) h;
    once = λ e. omega arith;
    miss = λ e k. moved false (omega arith) h;
  }

  match_one : (n : ℕ) → one_of (xs n) chars ≡ true → Matched chars false xs (suc n) 1
  match_one n h = record {
    within = omega arith;
    hit = λ i k l. moved true (omega arith) h;
    stop = λ e. absurd (cc);
    once = λ e. omega arith;
    miss = λ e. absurd (omega arith);
  }

  match_more :
      (n k : ℕ)
      → one_of (xs n) chars ≡ true
      → Matched chars true xs n k
      → Matched chars true xs (suc n) (suc k)
  match_more n k h r = record {
    within = omega (arith, r.within);
    hit = λ i g l. elim (Bool-cases (ltb i n)) [
      | inl e ↦ r.hit i (omega arith) (omega tests)
      | inr e ↦ moved true (omega tests) h
    ];
    stop = λ e g. moved false (omega arith) (r.stop refl (omega arith));
    once = λ e. absurd (cc);
    miss = λ e. absurd (omega arith);
  }

  Matched-map :
      {ys : ℕ → ℕ} {many : Bool} {n k : ℕ}
      → ((i : ℕ) → i < n → ys i ≡ xs i)
      → Matched chars many xs n k
      → Matched chars many ys n k
  Matched-map {n} {k} same r = record {
    within = r.within;
    hit = λ i g h. rw (same i h) (r.hit i g h);
    stop = λ e h. rw (same (n - k - 1) (omega arith)) (r.stop e h);
    once = r.once;
    miss = λ e h. rw (same (n - 1) (omega arith)) (r.miss e h);
  }

module _ (m : Bytes) (base : ℕ) (chars : Bytes) where
  abbrev byte : ℕ → ℕ
  byte i = get_byte m (base + i)

  count_strip-Matched :
      (many : Bool) (n : ℕ) → Matched chars many byte n (count_strip m base many chars n)
  unfolding count_strip
  count_strip-Matched many zero = record {
    within = omega arith;
    hit = λ i h k. absurd (omega arith);
    stop = λ e h. absurd (omega arith);
    once = λ e. omega arith;
    miss = λ e h. absurd (omega arith);
  }
  count_strip-Matched true (suc n) = elim (Bool-cases (one_of (byte n) chars)) [
    | inl e ↦ rw e (match_more chars byte n _ e (count_strip-Matched true n))
    | inr e ↦ rw e (match_none chars byte true n e)
  ]
  count_strip-Matched false (suc n) = elim (Bool-cases (one_of (byte n) chars)) [
    | inl e ↦ rw e (match_one chars byte n e)
    | inr e ↦ rw e (match_none chars byte false n e)
  ]

-- Stripping a set of bytes from a valid buffer drops the bytes at the end of the data that are in
-- the set, all of them with `many`, at most the last one without; it returns their number and
-- leaves the rest of the data and the array as they are.
pub stripchar_lem :
    {b : Buffer} (many : Bool) (chars : Bytes)
    → IsValid b
    → (k : ℕ) × (b' : Buffer) × (stripchar (some b) many (some chars) (pos (length chars))
        ≡ ok (pos k, some b'))
      × Cuts b (b.len - k) b'
      × Matched chars many (get_byte (contents b)) b.len k
      × (b'.buf ≡ b.buf)
unfolding stripchar
stripchar_lem {b} many chars v =
    let k = count_strip b.buf b.base many chars b.len in
    let r = count_strip-Matched b.buf b.base chars many b.len in
    (
      k,
      record b { len = b.len - k },
      rw
          (
            ltb-zero,
            load_front chars (length chars) (omega arith),
            take-all (length chars) chars (omega arith),
          )
          (ground (arith, r.within, v.small, v.extent)),
      record {
        valid = shorter-IsValid (b.len - k) v (omega arith);
        data_eq = sym (take-take (b.len - k) b.len (drop b.base b.buf) (omega arith));
        base_le = omega arith;
        size_eq = refl;
      },
      Matched-map chars _ (λ i h. get_byte-slice b.base b.len i b.buf h) r,
      refl,
    )
