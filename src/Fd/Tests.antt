-- ===== src/Fd/Tests.antt =====
-- The theorems on system calls at concrete answers.
use sancus_core.Base.{◌≡◌, refl, arith, some, [], ◌∷◌}
use sancus_core.Base.Int.{pos}
use sancus_core.Base.Memory.{Bytes}
use sancus_core.Fd.{done, fail, write, writev, writev_from, Iovec, consume}
use sancus_core.Fd.Write.{write_lem}

abbrev text : Bytes
text = 97 ∷ 98 ∷ 99 ∷ 100 ∷ []

-- The same text, in one entry and in front of another.
abbrev one : Iovec
one = record { memory = text; offset = 0; len = 4 }

abbrev two : Iovec
two = record { memory = 101 ∷ 102 ∷ 103 ∷ 104 ∷ 105 ∷ 106 ∷ 107 ∷ []; offset = 0; len = 3 }

writev_in_parts :
    writev (done 2 ∷ fail 4 ∷ done 2 ∷ done 3 ∷ []) (one ∷ two ∷ []) (pos 2)
    ≡ some (pos 7, 97 ∷ 98 ∷ 99 ∷ 100 ∷ 101 ∷ 102 ∷ 103 ∷ [])
unfolding writev writev_from consume
writev_in_parts = refl

-- The second write takes one byte of the second entry, and the third one other bytes than the next.
writev_crossing :
    writev (done 5 ∷ done 2 ∷ []) (one ∷ two ∷ []) (pos 2)
    ≡ some (pos 7, 97 ∷ 98 ∷ 99 ∷ 100 ∷ 101 ∷ 106 ∷ 107 ∷ [])
unfolding writev writev_from consume
writev_crossing = refl

write_lem_example : write (done 1 ∷ fail 4 ∷ done 0 ∷ done 3 ∷ []) text ≡ some (pos 4, text)
write_lem_example = write_lem (done 1 ∷ fail 4 ∷ done 0 ∷ done 3 ∷ []) text refl (omega arith)
