-- ===== src/Links/Tests.antt =====
-- Runs of the list functions, and the theorems at a list of two elements.
use sancus_core.Base.{◌≡◌, refl, arith, [], ◌∷◌, some, List}
use sancus_core.Base.Int.{negsuc}
use sancus_core.Links.{Heap, init, inject, append, get, get_from}
use sancus_core.Links.Ring.{IsRing}
use sancus_core.Links.Update.{inject-IsRing}
use sancus_core.Links.Runs.{
  Update, to_front, to_back, in_front, taken_out, perform_all, meaning_all, Answers,
  perform_all-Answers,
}

abbrev blank : Heap
blank p = record { prev = p; next = p }

-- The list at 0 with the elements 5, 6 and 7.
abbrev three : Heap
three = append (append (append (init blank 0) 0 5) 0 6) 0 7

three-IsRing : IsRing three 0 (5 ∷ 6 ∷ 7 ∷ [])
unfolding inject
three-IsRing = record {
  links = ((refl, refl), ((refl, refl), ((refl, refl), (refl, refl))));
  apart = refl;
}

three_back : get three 4 0 (negsuc 0) ≡ some (some 7)
unfolding get get_from inject
three_back = refl

inject-IsRing_example : IsRing (inject three 9 5 6) 0 (5 ∷ 9 ∷ 6 ∷ 7 ∷ [])
inject-IsRing_example = inject-IsRing three 0 9 (5 ∷ []) (6 ∷ 7 ∷ []) three-IsRing refl

-- 9 and 6 are left of them.
abbrev updates : List Update
updates = to_front 5 ∷ to_back 6 ∷ in_front 9 6 ∷ taken_out 5 ∷ []

perform_all-Answers_example :
    Answers (perform_all 0 (init blank 0) updates) 0 3 1 (meaning_all [] updates)
perform_all-Answers_example =
    perform_all-Answers blank 0 updates 3 1 (refl, (refl, (refl, (refl, tt)))) (omega arith)
