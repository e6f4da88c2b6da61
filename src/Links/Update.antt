-- ===== src/Links/Update.antt =====
-- Insertion at any place of a list, and removal.
use sancus_core.Base.{ℕ, ◌≡◌, ◌≢◌, ◌∙◌, true, false, arith, List, [], ◌∷◌, ◌++◌, append-nil}
use sancus_core.Links.{Heap, inject, insert_before, insert, append, unlink, del}
use sancus_core.Links.Ring.{
  mem, distinct, Chain, IsRing, last_of, first_of, mem-append, last_of-mem, first_of-mem, frame,
  Chain-next, Chain-prev, Chain-split,
}

-- The links after an insertion of `x` between `a` and `b`.
module _ (h : Heap) (x a b : ℕ) where
  inject-self_next : x ≢ a → (inject h x a b x).next ≡ b
  unfolding inject
  inject-self_next e = ground arith

  inject-self_prev : x ≢ b → (inject h x a b x).prev ≡ a
  unfolding inject
  inject-self_prev e = ground arith

  inject-before : (inject h x a b a).next ≡ x
  unfolding inject
  inject-before = ground arith

  inject-after : (inject h x a b b).prev ≡ x
  unfolding inject
  inject-after = ground arith

  inject-next : (r : ℕ) → r ≢ x → r ≢ a → (inject h x a b r).next ≡ (h r).next
  unfolding inject
  inject-next r e f = ground arith

  inject-prev : (r : ℕ) → r ≢ x → r ≢ b → (inject h x a b r).prev ≡ (h r).prev
  unfolding inject
  inject-prev r e f = ground arith

  unlink-before : (unlink h a b a).next ≡ b
  unfolding unlink
  unlink-before = ground arith

  unlink-after : (unlink h a b b).prev ≡ a
  unfolding unlink
  unlink-after = ground arith

  unlink-next : (r : ℕ) → r ≢ a → (unlink h a b r).next ≡ (h r).next
  unfolding unlink
  unlink-next r e = ground arith

  unlink-prev : (r : ℕ) → r ≢ b → (unlink h a b r).prev ≡ (h r).prev
  unfolding unlink
  unlink-prev r e = ground arith

Chain-inject :
    (h : Heap) (x p : ℕ) (xs ys : List ℕ) (q : ℕ)
    → distinct (p ∷ (xs ++ ys)) ≡ true
    → mem q (xs ++ ys) ≡ false
    → mem x (p ∷ (xs ++ ys)) ≡ false
    → x ≢ q
    → Chain h p (xs ++ ys) q
    → Chain (inject h x (last_of p xs) (first_of ys q)) p (xs ++ (x ∷ ys)) q
Chain-inject h x p [] [] q d mq mx e c = (
  (inject-before h x p q, inject-self_prev h x p q e),
  (inject-self_next h x p q (ground arith), inject-after h x p q),
)
Chain-inject h x p [] (y ∷ ys) q d mq mx e (c, r) = (
  (inject-before h x p y, inject-self_prev h x p y (ground arith)),
  (
    (inject-self_next h x p y (ground arith), inject-after h x p y),
    frame y ys q (λ r m. inject-next h x p y r (ground arith) (ground arith))
        (λ r m. inject-prev h x p y r (ground arith) (ground arith)) r,
  ),
)
Chain-inject h x p (z ∷ xs) ys q d mq mx e ((f, g), r) = (
  (inject-next h x _ _ p (ground arith) off ∙ f, inject-prev h x _ _ z (ground arith) on ∙ g),
  Chain-inject h x z xs ys q (ground arith) (ground arith) (ground arith) e r,
)
  where
    off : p ≢ last_of z xs
    off = last_of-mem p z xs (ground (arith, mem-append p xs ys))

    on : z ≢ first_of ys q
    on = first_of-mem z ys q (ground (arith, mem-append z xs ys)) (ground arith)

-- The distinct elements of a list stay distinct with a new one.
distinct-insert :
    (p : ℕ) (xs : List ℕ) (x : ℕ) (ys : List ℕ)
    → distinct (p ∷ (xs ++ ys)) ≡ true
    → mem x (p ∷ (xs ++ ys)) ≡ false
    → distinct (p ∷ (xs ++ (x ∷ ys))) ≡ true
distinct-insert p [] x ys d m = ground arith
distinct-insert p (z ∷ xs) x ys d m =
    ground (arith, distinct-insert z xs x ys, mem-append p xs (x ∷ ys), mem-append p xs ys)

-- Injecting an element that is not on a list, between what is before and what is after a place of
-- it, gives the list with the element at that place.
pub inject-IsRing :
    (h : Heap) (head x : ℕ) (xs ys : List ℕ)
    → IsRing h head (xs ++ ys)
    → mem x (head ∷ (xs ++ ys)) ≡ false
    → IsRing (inject h x (last_of head xs) (first_of ys head)) head (xs ++ (x ∷ ys))
inject-IsRing h head x xs ys r m = record {
  links =
      Chain-inject h x head xs ys head r.apart (ground (arith, r.apart)) m (ground arith) r.links;
  apart = distinct-insert head xs x ys r.apart m;
}

-- `sancus_list_insert` puts a new element in front of the others.
pub insert-IsRing :
    (h : Heap) (head x : ℕ) (xs : List ℕ)
    → IsRing h head xs
    → mem x (head ∷ xs) ≡ false
    → IsRing (insert h head x) head (x ∷ xs)
insert-IsRing h head x xs r m =
    rw (Chain-next h head xs head r.links) (inject-IsRing h head x [] xs r m)

-- `sancus_list_append` puts a new element behind the others.
pub append-IsRing :
    (h : Heap) (head x : ℕ) (xs : List ℕ)
    → IsRing h head xs
    → mem x (head ∷ xs) ≡ false
    → IsRing (append h head x) head (xs ++ (x ∷ []))
append-IsRing h head x xs r m =
    rw (Chain-prev h head xs head r.links)
      (inject-IsRing h head x xs [] (rw (append-nil xs) r) (rw (append-nil xs) m))

-- `sancus_list_insert_before` puts a new element in front of an element of the list.
pub insert_before-IsRing :
    (h : Heap) (head x n : ℕ) (xs ys : List ℕ)
    → IsRing h head (xs ++ (n ∷ ys))
    → mem x (head ∷ (xs ++ (n ∷ ys))) ≡ false
    → IsRing (insert_before h x n) head (xs ++ (x ∷ n ∷ ys))
insert_before-IsRing h head x n xs ys r m =
    rw (Chain-prev h head xs n (Chain-split h head xs n ys head r.links).0)
      (inject-IsRing h head x xs (n ∷ ys) r m)

Chain-unlink :
    (h : Heap) (x p : ℕ) (xs ys : List ℕ) (q : ℕ)
    → distinct (p ∷ (xs ++ (x ∷ ys))) ≡ true
    → mem q (xs ++ (x ∷ ys)) ≡ false
    → Chain h p (xs ++ (x ∷ ys)) q
    → Chain (unlink h (last_of p xs) (first_of ys q)) p (xs ++ ys) q
Chain-unlink h x p [] [] q d mq c = (unlink-before h x p q, unlink-after h x p q)
Chain-unlink h x p [] (y ∷ ys) q d mq (c, (e, r)) = (
  (unlink-before h x p y, unlink-after h x p y),
  frame y ys q (λ r m. unlink-next h x p y r (ground arith))
      (λ r m. unlink-prev h x p y r (ground arith)) r,
)
Chain-unlink h x p (z ∷ xs) ys q d mq ((f, g), r) = (
  (unlink-next h x _ _ p off ∙ f, unlink-prev h x _ _ z on ∙ g),
  Chain-unlink h x z xs ys q (ground arith) (ground arith) r,
)
  where
    off : p ≢ last_of z xs
    off = last_of-mem p z xs (ground (arith, mem-append p xs (x ∷ ys)))

    on : z ≢ first_of ys q
    on = first_of-mem z ys q (ground (arith, mem-append z xs (x ∷ ys))) (ground arith)

distinct-remove :
    (p : ℕ) (xs : List ℕ) (x : ℕ) (ys : List ℕ)
    → distinct (p ∷ (xs ++ (x ∷ ys))) ≡ true
    → distinct (p ∷ (xs ++ ys)) ≡ true
distinct-remove p [] x ys d = ground arith
distinct-remove p (z ∷ xs) x ys d =
    ground (arith, distinct-remove z xs x ys, mem-append p xs (x ∷ ys), mem-append p xs ys)

-- `sancus_list_del` of an element of a list leaves the list of the others, in their order.
pub del-IsRing :
    (h : Heap) (head x : ℕ) (xs ys : List ℕ)
    → IsRing h head (xs ++ (x ∷ ys))
    → IsRing (del h x) head (xs ++ ys)
del-IsRing h head x xs ys r =
    rw (Chain-prev h head xs x c.0, Chain-next h x ys head c.1)
      (record {
        links = Chain-unlink h x head xs ys head r.apart (ground (arith, r.apart)) r.links;
        apart = distinct-remove head xs x ys r.apart;
      })
  where
    c : Chain h head xs x × Chain h x ys head
    c = Chain-split h head xs x ys head r.links
