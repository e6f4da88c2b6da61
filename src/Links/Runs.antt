-- ===== src/Links/Runs.antt =====
-- A list of the header against a list of addresses, over any sequence of updates.
use sancus_core.Base.{
  ℕ, ◌<◌, ◌≡◌, ◌∙◌, refl, ap, Bool, true, false, not, ◌==◌, ◌&&◌, arith, List, [], ◌∷◌, ◌++◌, some,
  length, if◌then◌else◌, Bool-cases, inl, inr,
}
use sancus_core.Base.Int.{pos, negsuc}
use sancus_core.Links.{
  Heap, init, insert_before, insert, append, del, is_empty, first, last, size, get,
}
use sancus_core.Links.Ring.{mem, IsRing, last_of, Chain-next, Chain-prev}
use sancus_core.Links.Update.{insert-IsRing, append-IsRing, insert_before-IsRing, del-IsRing}
use sancus_core.Links.Walk.{get_elem?, reverse, get_lem, size_lem}

-- The updates: `sancus_list_insert`, `sancus_list_append`, `sancus_list_insert_before` an element, and
-- `sancus_list_del`.
pub data Update : Type 0 where
  to_front : ℕ → Update
  to_back : ℕ → Update
  in_front : ℕ → ℕ → Update
  taken_out : ℕ → Update

abbrev pub perform : ℕ → Heap → Update → Heap
perform head h (to_front x) = insert h head x
perform head h (to_back x) = append h head x
perform head h (in_front x n) = insert_before h x n
perform head h (taken_out x) = del h x

abbrev pub perform_all : ℕ → Heap → List Update → Heap
perform_all head h [] = h
perform_all head h (u ∷ us) = perform_all head (perform head h u) us

-- What they mean for a list of addresses.
abbrev pub put_before : ℕ → ℕ → List ℕ → List ℕ
put_before x n [] = []
put_before x n (y ∷ ys) = if y == n then x ∷ y ∷ ys else y ∷ put_before x n ys

abbrev pub without : ℕ → List ℕ → List ℕ
without x [] = []
without x (y ∷ ys) = if y == x then ys else y ∷ without x ys

abbrev pub meaning : List ℕ → Update → List ℕ
meaning xs (to_front x) = x ∷ xs
meaning xs (to_back x) = xs ++ (x ∷ [])
meaning xs (in_front x n) = put_before x n xs
meaning xs (taken_out x) = without x xs

abbrev pub meaning_all : List ℕ → List Update → List ℕ
meaning_all xs [] = xs
meaning_all xs (u ∷ us) = meaning_all (meaning xs u) us

-- A new element is not on the list, an old one is.
abbrev pub allowed : ℕ → List ℕ → Update → Bool
allowed head xs (to_front x) = not (mem x (head ∷ xs))
allowed head xs (to_back x) = not (mem x (head ∷ xs))
allowed head xs (in_front x n) = not (mem x (head ∷ xs)) && mem n xs
allowed head xs (taken_out x) = mem x xs

abbrev pub Allowed : ℕ → List ℕ → List Update → Type 0
Allowed head xs [] = Unit
Allowed head xs (u ∷ us) = (allowed head xs u ≡ true) × Allowed head (meaning xs u) us

-- The places around an element.
abbrev Around : ℕ → ℕ → List ℕ → Type 0
Around x n xs =
    (front : List ℕ) × (back : List ℕ) × (xs ≡ front ++ (n ∷ back))
    × (put_before x n xs ≡ front ++ (x ∷ n ∷ back))
    × (without n xs ≡ front ++ back)

around : (x n : ℕ) (xs : List ℕ) → mem n xs ≡ true → Around x n xs
around x n [] h = absurd (ground arith)
around x n (y ∷ ys) h = elim (Bool-cases (y == n)) [
  | inl here ↦
      let same : y ≡ n = ground arith in
      ([], ys, ap (λ z. z ∷ ys) same, rw here (ap (λ z. x ∷ z ∷ ys) same), rw here refl)
  | inr further ↦
      let (front, back, e, f, g) = around x n ys (ground arith) in
      (
        y ∷ front,
        back,
        ap (λ zs. y ∷ zs) e,
        rw further (ap (λ zs. y ∷ zs) f),
        rw further (ap (λ zs. y ∷ zs) g),
      )
]

perform-IsRing :
    (h : Heap) (head : ℕ) (xs : List ℕ) (u : Update)
    → IsRing h head xs
    → allowed head xs u ≡ true
    → IsRing (perform head h u) head (meaning xs u)
perform-IsRing h head xs (to_front x) r a = insert-IsRing h head x xs r (ground arith)
perform-IsRing h head xs (to_back x) r a = append-IsRing h head x xs r (ground arith)
perform-IsRing h head xs (in_front x n) r a =
    let (front, back, e, f, g) = around x n xs (ground arith) in
    let new : mem x (head ∷ xs) ≡ false = ground arith in
    rw f (insert_before-IsRing h head x n front back (rw e at r) (rw e at new))
perform-IsRing h head xs (taken_out x) r a =
    let (front, back, e, f, g) = around x x xs a in
    rw g (del-IsRing h head x front back (rw e at r))

run-IsRing :
    (h : Heap) (head : ℕ) (xs : List ℕ) (us : List Update)
    → IsRing h head xs
    → Allowed head xs us
    → IsRing (perform_all head h us) head (meaning_all xs us)
run-IsRing h head xs [] r a = r
run-IsRing h head xs (u ∷ us) r (a, rest) =
    run-IsRing (perform head h u) head (meaning xs u) us (perform-IsRing h head xs u r a) rest

first_lem : (h : Heap) (head : ℕ) (xs : List ℕ) → IsRing h head xs → first h head ≡ get_elem? xs 0
unfolding first
first_lem h head [] r = rw (Chain-next h head [] head r.links) (ground arith)
first_lem h head (x ∷ xs) r = rw (Chain-next h head (x ∷ xs) head r.links) (ground (arith, r.apart))

get_elem?-snoc :
    (y p : ℕ) (zs : List ℕ)
    → get_elem? ((zs ++ (y ∷ [])) ++ (p ∷ [])) 0 ≡ get_elem? (zs ++ (y ∷ [])) 0
get_elem?-snoc y p [] = refl
get_elem?-snoc y p (z ∷ zs) = refl

-- The last element is the first one from behind.
get_elem?-last : (p : ℕ) (xs : List ℕ) → get_elem? (reverse xs ++ (p ∷ [])) 0 ≡ some (last_of p xs)
get_elem?-last p [] = refl
get_elem?-last p (y ∷ ys) = get_elem?-snoc y p (reverse ys) ∙ get_elem?-last y ys

last_lem :
    (h : Heap) (head : ℕ) (xs : List ℕ) → IsRing h head xs → last h head ≡ get_elem? (reverse xs) 0
unfolding last
last_lem h head [] r = rw (Chain-next h head [] head r.links) (ground arith)
last_lem h head (x ∷ xs) r =
    rw
      (
        Chain-next h head (x ∷ xs) head r.links,
        Chain-prev h head (x ∷ xs) head r.links,
        get_elem?-last x xs,
      )
      (ground (arith, r.apart))

-- What a list that holds these elements answers.
abbrev pub Answers : Heap → ℕ → ℕ → ℕ → List ℕ → Type 0
Answers h head fuel n xs =
    (is_empty h head ≡ (length xs == 0))
    × (first h head ≡ get_elem? xs 0)
    × (last h head ≡ get_elem? (reverse xs) 0)
    × (size h fuel head ≡ some (length xs))
    × (get h fuel head (pos n) ≡ some (get_elem? xs n))
    × (get h fuel head (negsuc n) ≡ some (get_elem? (reverse xs) n))

is_empty_lem :
    (h : Heap) (head : ℕ) (xs : List ℕ) → IsRing h head xs → is_empty h head ≡ (length xs == 0)
is_empty_lem h head [] r = rw (Chain-next h head [] head r.links) (ground arith)
is_empty_lem h head (x ∷ xs) r =
    rw (Chain-next h head (x ∷ xs) head r.links) (ground (arith, r.apart))

-- After `sancus_list_init` and any updates that put in what is not on the list and name what is, a list
-- holds the addresses that the updates mean, in that order: `sancus_list_is_empty`, `_first`, `_last`,
-- `_size` and `_get` from either end answer what the list of addresses does, the last two with fuel
-- for its elements and one more.
pub perform_all-Answers :
    (h : Heap) (head : ℕ) (us : List Update) (fuel n : ℕ)
    → Allowed head [] us
    → length (meaning_all [] us) < fuel
    → Answers (perform_all head (init h head) us) head fuel n (meaning_all [] us)
perform_all-Answers h head us fuel n allowed_all enough =
    let gets = get_lem _ head _ fuel n ring enough in
    (
      is_empty_lem _ head _ ring,
      first_lem _ head _ ring,
      last_lem _ head _ ring,
      size_lem _ head _ fuel ring enough,
      gets.0,
      gets.1,
    )
  where
    start : IsRing (init h head) head []
    start = record { links = (ground arith, ground arith); apart = refl }

    ring : IsRing (perform_all head (init h head) us) head (meaning_all [] us)
    ring = run-IsRing (init h head) head [] us start allowed_all
