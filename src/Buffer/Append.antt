-- ===== src/Buffer/Append.antt =====
-- The operations that append: `sancus_buffer__append`, `sancus_buffer__appendv` and
-- `sancus_buffer_sparse`.
use sancus_core.Base.{
  ℕ, ◌+◌, ◌≤◌, ◌≡◌, refl, sym, ap, ◌∙◌, take-all, leb→le, tests, true, false, zero, suc, append-nil,
  Bool, some, [], arith, length, take, length-take, leb, if◌then◌else◌, Bool-cases, inl, inr,
}
use sancus_core.Base.Int.{ℤ, pos}
use sancus_core.Base.Memory.{Bytes}
use sancus_core.Base.Memory.Laws.{stored, store-ok, length-stored, slice-stored, load_front}
use sancus_core.Base.Outcome.{ok}
use sancus_core.Base.Word.{enobufs}
use sancus_core.Buffer.{Buffer, arg, text_arg, fit, copy_in, append}
use sancus_core.Buffer.Inv.{IsValid, contents, room, Extends, no_wrap}

-- The struct after `n` bytes `s` were copied behind the data.
abbrev pub extended : Buffer → Bytes → Buffer
extended b s = record b { buf = stored b.buf (b.base + b.len) s; len = b.len + length s }

pub extended-Extends :
    {b : Buffer} (s : Bytes) → IsValid b → length s ≤ room b → Extends b s (extended b s)
extended-Extends {b} s v h = record {
  valid = record {
    extent = omega (arith, v.extent);
    backed = omega (arith, length-stored b.buf (b.base + b.len) s, v.extent, v.backed);
    small = v.small;
    positive = v.positive;
  };
  data_eq =
      slice-stored b.buf (b.base + b.len) s b.base b.len (b.len + length s) refl refl
        (omega (arith, v.extent, v.backed));
  base_eq = refl;
  size_eq = refl;
}

copy_in_lem :
    {b : Buffer} (s : Bytes) (n : ℕ)
    → IsValid b
    → n ≤ length s
    → n ≤ room b
    → copy_in (some b) s n ≡ ok (pos n, some (extended b (take n s)))
unfolding copy_in
copy_in_lem {b} s n v h k =
    let len_eq : length (take n s) ≡ n = omega (arith, length-take n s) in
    rw
      (
        load_front s n h,
        (no_wrap v).1,
        store-ok b.buf (b.base + b.len) (take n s) (omega (arith, v.extent, v.backed)),
      )
      (ap
        (λ (j : ℕ).
          ok (pos n, some (record b { buf = stored b.buf (b.base + b.len) (take n s); len = j })))
        (omega (arith, v.extent, v.small)))

-- The part of `s` that `sancus_buffer__append` takes into `r` free bytes, and what it returns.
abbrev pub accepted : ℕ → Bool → Bytes → Bytes
accepted r truncate s = if leb (length s) r then s else if truncate then take r s else []

abbrev pub reply : ℕ → Bool → Bytes → ℤ
reply r truncate s =
    if leb (length s) r then pos (length s) else if truncate then pos r else enobufs

pub Extends-refl : {b : Buffer} → IsValid b → Extends b [] b
Extends-refl {b} v = record {
  valid = v;
  data_eq = sym (append-nil (contents b));
  base_eq = refl;
  size_eq = refl;
}

text_arg_pos : (s : Bytes) (n : ℕ) → text_arg (some s) (pos n) ≡ ok (arg s (pos n))
unfolding text_arg
text_arg_pos s n = ground arith

fit_lem :
    {b : Buffer} (truncate : Bool) (n : ℕ)
    → IsValid b
    → fit (some b) truncate (pos n)
      ≡ (if leb n (room b) then pos n else if truncate then pos (room b) else enobufs)
unfolding fit
fit_lem truncate n v = rw ((no_wrap v).2) (ground arith)

module _ {b : Buffer} (truncate : Bool) (s : Bytes) (v : IsValid b) where
  append_part :
      (n : ℕ)
      → fit (some b) truncate (pos (length s)) ≡ pos n
      → n ≤ length s
      → n ≤ room b
      → (b' : Buffer) × (append (some b) truncate (some s) (pos (length s)) ≡ ok (pos n, some b'))
        × Extends b (take n s) b'
  unfolding append
  append_part zero e h k = (b, rw (text_arg_pos, e), Extends-refl v)
  append_part (suc n) e h k = (
    extended b (take (suc n) s),
    rw (text_arg_pos, e) (rw (copy_in_lem s (suc n) v h k) (ground arith)),
    extended-Extends (take (suc n) s) v (omega (arith, length-take (suc n) s)),
  )

  append_none :
      fit (some b) truncate (pos (length s)) ≡ enobufs
      → append (some b) truncate (some s) (pos (length s)) ≡ ok (enobufs, some b)
  unfolding append
  append_none e = rw (text_arg_pos, e)

-- What `sancus_buffer__append` did to `b`, for a text `s` with its length.
abbrev pub Appended : Buffer → Bool → Bytes → Type 0
Appended b truncate s =
    (b' : Buffer) × (append (some b) truncate (some s) (pos (length s))
      ≡ ok (reply (room b) truncate s, some b'))
    × Extends b (accepted (room b) truncate s) b'

append_over :
    {b : Buffer} (truncate : Bool) (s : Bytes)
    → IsValid b
    → leb (length s) (room b) ≡ false
    → Appended b truncate s
append_over {b} true s v over = rw over (
    append_part true s v (room b) (fit_lem true (length s) v ∙ rw over) (omega tests) (omega arith))
append_over {b} false s v over =
    rw over (b, append_none false s v (fit_lem false (length s) v ∙ rw over), Extends-refl v)

-- On a valid buffer, appending `s` with its length takes all of it if it fits in the free bytes;
-- else the first of it up to the free bytes if truncation was asked for; else nothing, and the
-- result is -ENOBUFS. What it takes is appended to the data, the buffer stays valid, and the
-- base and the size stay. No access leaves the array.
pub append_lem : {b : Buffer} (truncate : Bool) (s : Bytes) → IsValid b → Appended b truncate s
append_lem {b} truncate s v = elim (Bool-cases (leb (length s) (room b))) [
  | inl fits ↦ rw fits (
      rw (take-all (length s) s (omega arith)) at (
        append_part truncate s v (length s) (fit_lem truncate (length s) v ∙ rw fits) (omega arith)
          (leb→le _ _ fits)))
  | inr over ↦ append_over truncate s v over
]
