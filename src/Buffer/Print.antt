-- ===== src/Buffer/Print.antt =====
-- What `sancus_buffer__appendv` does, for a `vsnprintf` that keeps its promise.
use sancus_core.Base.{
  ℕ, ◌-◌, ◌<◌, ◌≡◌, ltb→lt, ltb-false→le, lt→ltb, ◌==◌, true, false, Bool, some, [], arith, length,
  take, ltb, if◌then◌else◌, Bool-cases, inl, inr,
}
use sancus_core.Base.Int.{ℤ, pos}
use sancus_core.Base.Memory.{Bytes}
use sancus_core.Base.Outcome.{ok}
use sancus_core.Base.Word.{enobufs}
use sancus_core.Buffer.{Buffer, print_in, appendv, Printer}
use sancus_core.Buffer.Inv.{IsValid, room, Extends, no_wrap}
use sancus_core.Buffer.Append.{Extends-refl}
use sancus_core.Buffer.Chunk.{Prints, print_fits, print_cut, print_refused}

-- The part of a rendered text that `sancus_buffer__appendv` keeps with `r` free bytes, one of which
-- goes to the NUL, and what it returns.
abbrev pub printed : ℕ → Bool → Bytes → Bytes
printed r truncate text =
    if ltb (length text) r then text else if truncate then take (r - 1) text else []

abbrev pub printed_reply : ℕ → Bool → Bytes → ℤ
printed_reply r truncate text =
    if r == 0
    then enobufs
    else if ltb (length text) r
    then pos (length text)
    else if truncate
    then pos (r - 1)
    else enobufs

abbrev pub Printed : Buffer → Bool → Printer → Bytes → Type 0
Printed b truncate print text =
    (b' : Buffer) × (appendv (some b) truncate print
      ≡ ok (printed_reply (room b) truncate text, some b'))
    × Extends b (printed (room b) truncate text) b'

module _ {b : Buffer} (v : IsValid b) where
  appendv_full :
      (truncate : Bool) (print : Printer)
      → room b ≡ 0
      → appendv (some b) truncate print ≡ ok (enobufs, some b)
  unfolding appendv
  appendv_full truncate print e = rw ((no_wrap v).2, e)

module _ {b : Buffer} (v : IsValid b) (text : Bytes) (print : Printer) (p : Prints print text) where
  appendv_fits :
      (truncate : Bool) (n : ℤ) (s : Bytes)
      → 0 < room b
      → ((b' : Buffer) × (print_in b truncate print (room b) ≡ ok (n, some b')) × Extends b s b')
      → (b' : Buffer) × (appendv (some b) truncate print ≡ ok (n, some b')) × Extends b s b'
  unfolding appendv
  appendv_fits truncate n s h (b', e, x) = (b', rw ((no_wrap v).2, lt→ltb 0 (room b) h) e, x)

  appendv_over :
      (truncate : Bool)
      → ltb (length text) (room b) ≡ false
      → (room b == 0) ≡ false
      → 0 < room b
      → Printed b truncate print text
  appendv_over true over some_room h =
      rw (over, some_room)
        (appendv_fits true (pos (room b - 1)) (take (room b - 1) text) h
          (print_cut v text h print p (ltb-false→le _ _ over)))
  appendv_over false over some_room h =
      rw (over, some_room)
        (appendv_fits false enobufs [] h (print_refused v text h print p (ltb-false→le _ _ over)))

  appendv_some :
      (truncate : Bool) → (room b == 0) ≡ false → 0 < room b → Printed b truncate print text
  appendv_some truncate some_room h = elim (Bool-cases (ltb (length text) (room b))) [
    | inl fits ↦
        rw (some_room, fits)
          (appendv_fits truncate (pos (length text)) text h
            (print_fits v text h print p truncate (ltb→lt _ _ fits)))
    | inr over ↦ appendv_over truncate over some_room h
  ]

  none_below : ltb (length text) 0 ≡ false
  none_below = ground arith

  appendv_none : (truncate : Bool) → room b ≡ 0 → Printed b truncate print text
  appendv_none true e = rw (e, none_below) (b, appendv_full v true print e, Extends-refl v)
  appendv_none false e = rw (e, none_below) (b, appendv_full v false print e, Extends-refl v)

-- On a valid buffer, formatted output is appended whole if it fits with a NUL behind it. If not,
-- truncation keeps what fits before the NUL; without truncation, and where no byte is free, nothing
-- is appended and the result is -ENOBUFS. The buffer stays valid, and no access leaves the array.
pub appendv_lem :
    {b : Buffer} (truncate : Bool) (print : Printer) (text : Bytes)
    → IsValid b
    → Prints print text
    → Printed b truncate print text
appendv_lem {b} truncate print text v p = elim (Bool-cases (room b == 0)) [
  | inl none_left ↦ appendv_none v text print p truncate (ground arith)
  | inr some_room ↦ appendv_some v text print p truncate some_room (ground arith)
]
