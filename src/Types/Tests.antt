-- ===== src/Types/Tests.antt =====
-- Conversions of small numbers.
use sancus_core.Base.{◌≡◌, refl, true, some, [], ◌∷◌, false, none, ◌&&◌}
use sancus_core.Base.Int.{pos}
use sancus_core.Base.Memory.{Bytes}
use sancus_core.Base.Outcome.{abort}
use sancus_core.Types.{
  uint, get_ds, get_ls, drl, url, get_drl, get_url, get_uint, get_drls, get_urlls, Strto, int_min,
  int_max,
}
use sancus_core.Types.Range.{returned, stored, between, whole, uint_max, conversions_exact}

too_large : uint 16 (pos 65536) ≡ abort
unfolding uint
too_large = refl

from_text :
    get_ds (λ s. (pos 42, 2)) (some (52 ∷ 50 ∷ 0 ∷ [])) (some (pos 0)) ≡ (true, some (pos 42))
unfolding get_ds get_ls
from_text = refl

-- The number of a text of two digits.
abbrev forty_two : Strto
forty_two s = (pos 42, 2)

abbrev digits : Bytes
digits = 52 ∷ 50 ∷ 0 ∷ []

conversions_exact_example :
    (drl (pos 7) (pos 0) (pos 9) ≡ returned (between (pos 0) (pos 9) (pos 7)) (pos 7))
    × (url (pos 7) (pos 8) (pos 9) ≡ returned (between (pos 8) (pos 9) (pos 7)) (pos 7))
    × (uint 16 (pos 7) ≡ returned (between (pos 0) (uint_max 16) (pos 7)) (pos 7))
    × (get_drl (pos 7) (pos 0) (pos 9) (some (pos 1))
        ≡ stored (between (pos 0) (pos 9) (pos 7)) (pos 7) (pos 1))
    × (get_url (pos 7) (pos 8) (pos 9) (some (pos 1))
        ≡ stored (between (pos 8) (pos 9) (pos 7)) (pos 7) (pos 1))
    × (get_uint 16 (pos 7) (some (pos 1))
        ≡ stored (between (pos 0) (uint_max 16) (pos 7)) (pos 7) (pos 1))
    × (get_drls forty_two (some digits) (pos 0) (pos 9) (some (pos 1))
        ≡ stored (whole forty_two digits && between (pos 0) (pos 9) (pos 42)) (pos 42) (pos 1))
    × (get_urlls forty_two (some digits) (pos 8) (pos 9) (some (pos 1))
        ≡ stored (whole forty_two digits && between (pos 8) (pos 9) (pos 42)) (pos 42) (pos 1))
    × (get_ds forty_two (some digits) (some (pos 1))
        ≡ stored (whole forty_two digits && between int_min int_max (pos 42)) (pos 42) (pos 1))
    × (get_drls forty_two none (pos 0) (pos 9) (some (pos 1)) ≡ (false, some (pos 1)))
    × (get_urlls forty_two none (pos 8) (pos 9) (some (pos 1)) ≡ (false, some (pos 1)))
    × (get_ds forty_two none (some (pos 1)) ≡ (false, some (pos 1)))
conversions_exact_example =
    conversions_exact forty_two digits 16 (pos 7) (pos 0) (pos 9) (pos 8) (pos 9) (pos 1) refl refl
      refl refl
