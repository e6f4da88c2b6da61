-- ===== src/Logger/Tests.antt =====
-- The logger's theorems at small buffers, and a message on its way.
use sancus_core.Base.{
  replicate, ◌++◌, ◌<◌, ◌⊎◌, ◌≤◌, ◌≡◌, refl, false, none, some, [], ◌∷◌, arith, length,
}
use sancus_core.Base.Int.{pos}
use sancus_core.Base.Memory.{Bytes}
use sancus_core.Base.Outcome.{ok}
use sancus_core.Buffer.{Buffer}
use sancus_core.Buffer.Inv.{IsValid, Extends, room}
use sancus_core.Cstr.{emitted, width, entry}
use sancus_core.Cstr.Escape.{escapes}
use sancus_core.Logger.{Entry, trim, trim_from, dump_enc, has_level}
use sancus_core.Logger.Dump.{dump_enc-append}
use sancus_core.Logger.Dumps.{dump_blocks}
use sancus_core.Logger.Dumps.Blocks.{texts, dump_blocks_lem}

-- "a" and a line feed, in eight bytes.
abbrev line : Buffer
line = record { buf = 97 ∷ 10 ∷ 0 ∷ 0 ∷ 0 ∷ 0 ∷ 0 ∷ 0 ∷ []; base = 0; len = 2; size = 8 }

line-IsValid : IsValid line
line-IsValid = record {
  extent = omega arith;
  backed = refl;
  small = omega arith;
  positive = omega arith;
}

line_trimmed : trim (some line) ≡ (some (97 ∷ []), 1)
unfolding trim trim_from
line_trimmed = refl

-- A child without a mask takes its parent's; information is not among warnings.
abbrev quiet : Entry
quiet = record { prefix = none; mask = 3; prefixer = none; backend = none }

abbrev child : Entry
child = record { prefix = none; mask = 0; prefixer = none; backend = none }

inherited : has_level (child ∷ quiet ∷ []) 4 ≡ false
unfolding has_level
inherited = refl

room_for_three : length (escapes (97 ∷ 10 ∷ [])) ≤ 6
unfolding emitted width entry
room_for_three = omega arith

dump_enc-append_example :
    (b : Buffer) × (dump_enc (some line) (97 ∷ 10 ∷ [])
      ≡ ok (pos (length (escapes (97 ∷ 10 ∷ []))), some b))
    × Extends line (escapes (97 ∷ 10 ∷ [])) b
dump_enc-append_example = dump_enc-append (97 ∷ 10 ∷ []) line-IsValid refl room_for_three

-- Sixteen free bytes take the first two of three bytes, and a suffix.
abbrev sixteen : Buffer
sixteen = record { buf = replicate 16 0; base = 0; len = 0; size = 16 }

sixteen-IsValid : IsValid sixteen
sixteen-IsValid = record {
  extent = omega arith;
  backed = refl;
  small = omega arith;
  positive = omega arith;
}

dump_blocks_lem_example :
    (b' : Buffer) × (first : Bytes) × (left : Bytes) × (dump_blocks 3
        (some sixteen)
        (97 ∷ 0 ∷ 10 ∷ [])
      ≡ ok (some (some b', left)))
    × (first ++ left ≡ 97 ∷ 0 ∷ 10 ∷ [])
    × Extends sixteen (texts first) b'
    × (10 ≤ room b')
    × ((left ≡ []) ⊎ (room b' < 14))
dump_blocks_lem_example =
    dump_blocks_lem 3 (97 ∷ 0 ∷ 10 ∷ []) sixteen-IsValid (omega arith) (omega arith)
