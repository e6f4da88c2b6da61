-- ===== src/Legacy/Tests.antt =====
-- The older buffer at three bytes in ten.
use sancus_core.Base.{◌≡◌, refl, arith, some, [], ◌∷◌}
use sancus_core.Base.Int.{pos}
use sancus_core.Base.Memory.{store}
use sancus_core.Base.Outcome.{ok, abort}
use sancus_core.Buffer.{Buffer}
use sancus_core.Buffer.Inv.{IsValid}
use sancus_core.Fd.{Answer, done, fail}
use sancus_core.Fd
use sancus_core.Legacy.{bind, read}

abbrev three : Buffer
three = record { buf = 0 ∷ 0 ∷ 0 ∷ 0 ∷ 0 ∷ 0 ∷ 97 ∷ 98 ∷ 99 ∷ 0 ∷ []; base = 6; len = 3; size = 10 }

three-IsValid : IsValid three
three-IsValid = record {
  extent = omega arith;
  backed = refl;
  small = omega arith;
  positive = omega arith;
}

read_one_more :
    read three (fail 4 ∷ done 1 ∷ []) (100 ∷ 101 ∷ [])
    ≡ some (
        ok (pos 1, record three { buf = 0 ∷ 0 ∷ 0 ∷ 0 ∷ 0 ∷ 0 ∷ 97 ∷ 98 ∷ 99 ∷ 100 ∷ []; len = 4 }))
unfolding read Fd.read store
read_one_more = refl

bind_without_size : bind (some (0 ∷ [])) 0 ≡ abort
unfolding bind
bind_without_size = refl
