-- ===== src/Bit/Tests.antt =====
-- Fields and flags at concrete words.
use sancus_core.Base.{◌≡◌, refl, true, false, arith}
use sancus_core.Bit.{cms, unmask, has_bit, has_flag}
use sancus_core.Bit.Fields.{unmask-cms}

written : cms 0x1234 5 0xf 4 ≡ 0x1254
unfolding cms
written = refl

flags : has_flag 6 4 ≡ true
unfolding has_flag
flags = refl

no_bit : has_bit 6 3 ≡ false
unfolding has_bit
no_bit = refl

-- A field of four bits, and its neighbour.
unmask-cms_example : unmask (cms 0x1234 0x25 0xf 4) 0xf 4 ≡ 5
unmask-cms_example = unmask-cms 0x1234 0x25 0xf 4 (omega arith)
