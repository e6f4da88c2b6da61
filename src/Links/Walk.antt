-- ===== src/Links/Walk.antt =====
-- Walks over a list, forward and backward.
use sancus_core.Base.{
  ℕ, zero, suc, ◌+◌, ◌<◌, ◌≡◌, ◌∙◌, refl, ap, false, ◌==◌, ◌||◌, arith, List, [], ◌∷◌, ◌++◌, Option,
  none, some, length, length-append,
}
use sancus_core.Base.Int.{pos, negsuc}
use sancus_core.Links.{Heap, get_from, get, size_from, size}
use sancus_core.Links.Ring.{mem, Chain, IsRing, Chain-join}

-- The element at a place, if there is one.
abbrev pub get_elem? : List ℕ → ℕ → Option ℕ
get_elem? [] n = none
get_elem? (x ∷ xs) zero = some x
get_elem? (x ∷ xs) (suc n) = get_elem? xs n

abbrev pub reverse : List ℕ → List ℕ
reverse [] = []
reverse (x ∷ xs) = reverse xs ++ (x ∷ [])

length-reverse : (xs : List ℕ) → length (reverse xs) ≡ length xs
length-reverse [] = refl
length-reverse (x ∷ xs) = omega (arith, length-reverse xs, length-append (reverse xs) (x ∷ []))

mem-snoc : (x y : ℕ) (xs : List ℕ) → mem x (xs ++ (y ∷ [])) ≡ ((x == y) || mem x xs)
mem-snoc x y [] = refl
mem-snoc x y (z ∷ xs) = ground (arith, mem-snoc x y xs)

mem-reverse : (x : ℕ) (xs : List ℕ) → mem x (reverse xs) ≡ mem x xs
mem-reverse x [] = refl
mem-reverse x (y ∷ xs) = mem-snoc x y (reverse xs) ∙ rw (mem-reverse x xs)

-- The store seen from the other side.
abbrev flip : Heap → Heap
flip h p = record { prev = (h p).next; next = (h p).prev }

Chain-reverse :
    (h : Heap) (p : ℕ) (xs : List ℕ) (q : ℕ) → Chain h p xs q → Chain (flip h) q (reverse xs) p
Chain-reverse h p [] q (e, e') = (e', e)
Chain-reverse h p (x ∷ xs) q ((e, e'), c) =
    Chain-join (flip h) q (reverse xs) x [] p (Chain-reverse h x xs q c) (e', e)

get_from_lem :
    (h : Heap) (p : ℕ) (xs : List ℕ) (head fuel n : ℕ)
    → Chain h p xs head
    → mem head xs ≡ false
    → length xs < fuel
    → get_from (λ i. (h i).next) head fuel (h p).next n ≡ some (get_elem? xs n)
unfolding get_from
get_from_lem h p [] head zero n c m l = elim l [ ]
get_from_lem h p (x ∷ xs) head zero n c m l = elim l [ ]
get_from_lem h p [] head (suc fuel) zero (e, e') m l = rw e (ground arith)
get_from_lem h p [] head (suc fuel) (suc n) (e, e') m l = rw e (ground arith)
get_from_lem h p (x ∷ xs) head (suc fuel) zero ((e, e'), c) m l = rw e (ground arith)
get_from_lem h p (x ∷ xs) head (suc fuel) (suc n) ((e, e'), c) m l =
    rw (e, get_from_lem h x xs head fuel n c (ground arith) (omega arith)) (ground arith)

-- With fuel for the elements and one more, `sancus_list_get` returns the element at place `n` from
-- the front, or at place `-n - 1` from the back for a negative `n`, and NULL where there is none.
pub get_lem :
    (h : Heap) (head : ℕ) (xs : List ℕ) (fuel n : ℕ)
    → IsRing h head xs
    → length xs < fuel
    → (get h fuel head (pos n) ≡ some (get_elem? xs n))
      × (get h fuel head (negsuc n) ≡ some (get_elem? (reverse xs) n))
unfolding get
get_lem h head xs fuel n r l = (
  get_from_lem h head xs head fuel n r.links away l,
  get_from_lem (flip h) head (reverse xs) head fuel n (Chain-reverse h head xs head r.links)
      (mem-reverse head xs ∙ away) (omega (arith, length-reverse xs)),
)
  where
    away : mem head xs ≡ false
    away = ground (arith, r.apart)

size_from_lem :
    (h : Heap) (p : ℕ) (xs : List ℕ) (head fuel i : ℕ)
    → Chain h p xs head
    → mem head xs ≡ false
    → length xs < fuel
    → size_from h head fuel (h p).next i ≡ some (length xs + i)
unfolding size_from
size_from_lem h p [] head zero i c m l = elim l [ ]
size_from_lem h p (x ∷ xs) head zero i c m l = elim l [ ]
size_from_lem h p [] head (suc fuel) i (e, e') m l = rw e (ground arith)
size_from_lem h p (x ∷ xs) head (suc fuel) i ((e, e'), c) m l =
    rw (e, size_from_lem h x xs head fuel (suc i) c (ground arith) (omega arith)) (ground arith)

-- With fuel for the elements and one more, `sancus_list_size` returns their number.
pub size_lem :
    (h : Heap) (head : ℕ) (xs : List ℕ) (fuel : ℕ)
    → IsRing h head xs
    → length xs < fuel
    → size h fuel head ≡ some (length xs)
size_lem h head xs fuel r l =
    size_from_lem h head xs head fuel 0 r.links (ground (arith, r.apart)) l ∙ ap some (omega arith)
