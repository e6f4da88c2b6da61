-- ===== src/Buffer/Tests.antt =====
-- Runs of the buffer functions, and the theorems at concrete buffers.
use sancus_core.Base.{ℕ, ◌-◌, ◌≡◌, refl, true, false, some, none, List, [], ◌∷◌, ◌++◌, arith, take}
use sancus_core.Base.Int.{pos}
use sancus_core.Base.Memory.{Bytes, get_byte, load, store}
use sancus_core.Base.Outcome.{ok, fault}
use sancus_core.Base.Word.{enobufs, einval}
use sancus_core.Buffer.{Buffer, append, appendv, terminate, stripn, stripchar, strip, Printer, init}
use sancus_core.Buffer.Inv.{IsValid, contents, Cuts}
use sancus_core.Buffer.Append.{Appended, append_lem}
use sancus_core.Buffer.Match.{Matched, stripchar_lem}
use sancus_core.Buffer.Runs.{
  Op, add, print, keep, cut, perform_all, effects, results, perform_all_lem,
}
use sancus_core.Buffer.Suffix.{strip-append}

-- "ab" stored at offset 1 of six bytes.
abbrev ab : Buffer
ab = record { buf = 0 ∷ 97 ∷ 98 ∷ 0 ∷ 0 ∷ 0 ∷ []; base = 1; len = 2; size = 6 }

abbrev full : Buffer
full = record { buf = 97 ∷ 98 ∷ []; base = 0; len = 2; size = 2 }

abbrev cdef : Bytes
cdef = 99 ∷ 100 ∷ 101 ∷ 102 ∷ []

abbrev print_cdef : Printer
print_cdef l = (pos 4, take (l - 1) cdef ++ (0 ∷ []))

ab-IsValid : IsValid ab
ab-IsValid = omega arith

full-IsValid : IsValid full
full-IsValid = omega arith

append_too_long : append (some ab) false (some cdef) (pos 4) ≡ ok (enobufs, some ab)
unfolding append
append_too_long = refl

append_truncates :
    append (some ab) true (some cdef) (pos 4)
    ≡ ok (pos 3, some (record ab { buf = 0 ∷ 97 ∷ 98 ∷ 99 ∷ 100 ∷ 101 ∷ []; len = 5 }))
unfolding append load store
append_truncates = refl

append_null : append none false (some cdef) (pos 4) ≡ ok (einval, none)
unfolding append
append_null = refl

appendv_truncates :
    appendv (some ab) true print_cdef
    ≡ ok (pos 2, some (record ab { buf = 0 ∷ 97 ∷ 98 ∷ 99 ∷ 100 ∷ 0 ∷ []; len = 4 }))
unfolding appendv store
appendv_truncates = refl

stripn_at_end : stripn full 0 ≡ fault
unfolding stripn terminate store
stripn_at_end = refl

append_lem_example : Appended ab true cdef
append_lem_example = append_lem true cdef ab-IsValid

stripchar_lem_example :
    (k : ℕ) × (b : Buffer) × (stripchar (some ab) true (some (98 ∷ [])) (pos 1)
      ≡ ok (pos k, some b))
    × Cuts ab (2 - k) b
    × Matched (98 ∷ []) true (get_byte (contents ab)) 2 k
    × (b.buf ≡ ab.buf)
stripchar_lem_example = stripchar_lem true (98 ∷ []) ab-IsValid

strip-append_example :
    (b : Buffer) × (strip (some ab) (some (98 ∷ [])) (pos 1) ≡ ok (pos 1, some b))
    × IsValid b
    × (contents b ≡ 97 ∷ [])
strip-append_example = strip-append (97 ∷ []) (98 ∷ []) ab-IsValid (omega arith) refl

-- On six bytes: "cdef", "cdef" cut off by the end, "cde" of it, and a byte less.
abbrev operations : List Op
operations = add false cdef ∷ print true print_cdef cdef ∷ keep 3 ∷ cut 1 ∷ []

perform_all_lem_example :
    (b : Buffer) × (perform_all operations (init (some full) (some ab.buf) 6).1
      ≡ ok (results 6 [] operations, some b))
    × IsValid b
    × (contents b ≡ effects 6 [] operations)
perform_all_lem_example =
    perform_all_lem full ab.buf operations (omega arith) (omega arith)
      (tt, (λ l h. refl, (omega arith, (omega arith, tt))))
