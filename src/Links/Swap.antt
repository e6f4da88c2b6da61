-- ===== src/Links/Swap.antt =====
-- What `sancus_list_swap` does to two elements of one list.
use sancus_core.Base.{ℕ, ◌≡◌, arith, List, ◌∷◌}
use sancus_core.Links.{Heap, swap}
use sancus_core.Links.Ring.{IsRing}

-- The neighbours' links are not changed, so of the first two elements of a list the second one is
-- no longer on it after they are swapped: the head still leads to the first, which now leads to
-- what was behind the second.
pub swap_drops :
    (h : Heap) (head a b c : ℕ) (xs : List ℕ)
    → IsRing h head (a ∷ b ∷ c ∷ xs)
    → ((swap h a b head).next ≡ a) × ((swap h a b a).next ≡ c)
unfolding swap
swap_drops h head a b c xs r = (ground (arith, r.links, r.apart), ground (arith, r.links, r.apart))
