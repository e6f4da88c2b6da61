-- ===== src/Links/Ring.antt =====
-- The rings that the links form, and what keeps them.
use sancus_core.Base.{
  ℕ, ◌≡◌, ◌≢◌, ◌∙◌, refl, Bool, true, false, not, ◌==◌, ◌||◌, ◌&&◌, arith, List, [], ◌∷◌, ◌++◌,
}
use sancus_core.Links.{Heap}

abbrev pub mem : ℕ → List ℕ → Bool
mem x [] = false
mem x (y ∷ ys) = (x == y) || mem x ys

abbrev pub distinct : List ℕ → Bool
distinct [] = true
distinct (x ∷ xs) = not (mem x xs) && distinct xs

-- The links from `a` to `b` and back.
abbrev pub Edge : Heap → ℕ → ℕ → Type 0
Edge h a b = ((h a).next ≡ b) × ((h b).prev ≡ a)

-- From `a` through the elements to `b`.
abbrev pub Chain : Heap → ℕ → List ℕ → ℕ → Type 0
Chain h a [] b = Edge h a b
Chain h a (x ∷ xs) b = Edge h a x × Chain h x xs b

-- The list of `head` holds these elements in this order.
pub record IsRing (h : Heap) (head : ℕ) (xs : List ℕ) : Type 0 where
  pub links : Chain h head xs head
  pub apart : distinct (head ∷ xs) ≡ true

-- The elements before and after a place.
abbrev pub last_of : ℕ → List ℕ → ℕ
last_of p [] = p
last_of p (x ∷ xs) = last_of x xs

abbrev pub first_of : List ℕ → ℕ → ℕ
first_of [] q = q
first_of (x ∷ xs) q = x

pub mem-append : (x : ℕ) (xs ys : List ℕ) → mem x (xs ++ ys) ≡ (mem x xs || mem x ys)
mem-append x [] ys = refl
mem-append x (y ∷ xs) ys = ground (arith, mem-append x xs ys)

pub last_of-mem : (x p : ℕ) (xs : List ℕ) → mem x (p ∷ xs) ≡ false → x ≢ last_of p xs
last_of-mem x p [] h = ground arith
last_of-mem x p (y ∷ xs) h = last_of-mem x y xs (ground arith)

pub first_of-mem : (x : ℕ) (ys : List ℕ) (q : ℕ) → mem x ys ≡ false → x ≢ q → x ≢ first_of ys q
first_of-mem x [] q h k = k
first_of-mem x (y ∷ ys) q h k = ground arith

-- Links of other elements do not matter to a chain.
pub frame :
    {h k : Heap} (p : ℕ) (xs : List ℕ) (q : ℕ)
    → ((r : ℕ) → mem r (p ∷ xs) ≡ true → (k r).next ≡ (h r).next)
    → ((r : ℕ) → mem r (q ∷ xs) ≡ true → (k r).prev ≡ (h r).prev)
    → Chain h p xs q
    → Chain k p xs q
frame p [] q f g (e, e') = (f p (ground arith) ∙ e, g q (ground arith) ∙ e')
frame p (x ∷ xs) q f g ((e, e'), c) = (
  (f p (ground arith) ∙ e, g x (ground arith) ∙ e'),
  frame x xs q (λ r m. f r (ground arith)) (λ r m. g r (ground arith)) c,
)

-- The first and the last link of a chain.
pub Chain-next :
    (h : Heap) (p : ℕ) (xs : List ℕ) (q : ℕ) → Chain h p xs q → (h p).next ≡ first_of xs q
Chain-next h p [] q (e, e') = e
Chain-next h p (x ∷ xs) q ((e, e'), c) = e

pub Chain-prev :
    (h : Heap) (p : ℕ) (xs : List ℕ) (q : ℕ) → Chain h p xs q → (h q).prev ≡ last_of p xs
Chain-prev h p [] q (e, e') = e'
Chain-prev h p (x ∷ xs) q (e, c) = Chain-prev h x xs q c

pub Chain-split :
    (h : Heap) (p : ℕ) (xs : List ℕ) (x : ℕ) (ys : List ℕ) (q : ℕ)
    → Chain h p (xs ++ (x ∷ ys)) q
    → Chain h p xs x × Chain h x ys q
Chain-split h p [] x ys q c = c
Chain-split h p (z ∷ xs) x ys q (e, c) = let d = Chain-split h z xs x ys q c in ((e, d.0), d.1)

pub Chain-join :
    (h : Heap) (p : ℕ) (xs : List ℕ) (x : ℕ) (ys : List ℕ) (q : ℕ)
    → Chain h p xs x
    → Chain h x ys q
    → Chain h p (xs ++ (x ∷ ys)) q
Chain-join h p [] x ys q c d = (c, d)
Chain-join h p (z ∷ xs) x ys q (e, c) d = (e, Chain-join h z xs x ys q c d)
