-- ===== src/Cstr/Tests.antt =====
-- Runs of the formatter, and the theorems at a text of four bytes.
use sancus_core.Base.{◌≡◌, refl, arith, [], ◌∷◌, replicate}
use sancus_core.Base.Memory.{Bytes, load, store}
use sancus_core.Base.Outcome.{ok, abort}
use sancus_core.Cstr.{fmt_ascii_cstr, fill, width, entry, emitted}
use sancus_core.Cstr.Escape.{escapes}
use sancus_core.Cstr.Fits.{Formatted, fmt_ascii_cstr_lem}
use sancus_core.Cstr.Decode.{decode, decode-escapes}

-- A letter, a line feed, a byte without a name and a quotation mark.
abbrev four : Bytes
four = 97 ∷ 10 ∷ 200 ∷ 34 ∷ []

abbrev room_for_eight : Bytes
room_for_eight = replicate 8 1

four_in_eight :
    fmt_ascii_cstr room_for_eight 8 four 4 ≡ ok (7, 97 ∷ 92 ∷ 110 ∷ 92 ∷ 120 ∷ 99 ∷ 56 ∷ 0 ∷ [])
unfolding fmt_ascii_cstr fill width entry emitted load store
four_in_eight = refl

none_to_read : fmt_ascii_cstr room_for_eight 8 four 0 ≡ abort
unfolding fmt_ascii_cstr
none_to_read = refl

fmt_ascii_cstr_lem_example :
    Formatted room_for_eight 8 four (fmt_ascii_cstr room_for_eight 8 four 4)
fmt_ascii_cstr_lem_example =
    fmt_ascii_cstr_lem room_for_eight 8 four 4 (omega arith) (omega arith) (omega arith)
      (omega arith)

decode-escapes_example : decode 4 (escapes four) ≡ four
decode-escapes_example = decode-escapes four 4 refl (omega arith)
