-- ===== src/Strings/Tests.antt =====
-- Copies of "abc".
use sancus_core.Base.{◌≡◌, refl, [], ◌∷◌, some}
use sancus_core.Base.Int.{pos}
use sancus_core.Base.Memory.{Bytes, load, store, strlen}
use sancus_core.Base.Outcome.{ok}
use sancus_core.Base.Word.{enobufs}
use sancus_core.Strings.{copy, copy_text, strncpy, strcpy, memcpy}

abbrev abc : Bytes
abc = 97 ∷ 98 ∷ 99 ∷ 0 ∷ []

abbrev three : Bytes
three = 1 ∷ 1 ∷ 1 ∷ []

cut : strcpy three (pos 3) (some abc) ≡ ok (enobufs, 97 ∷ 98 ∷ 0 ∷ [])
unfolding strcpy strncpy copy_text copy load store strlen
cut = refl

copied : memcpy three (pos 3) abc 2 ≡ ok (pos 2, 97 ∷ 98 ∷ 1 ∷ [])
unfolding memcpy copy load store
copied = refl
