-- ===== src/Fd/Write.antt =====
-- `sancus_write` writes all bytes, or reports the error that stopped it.
use sancus_core.Base.{
  ℕ, suc, ◌+◌, ◌-◌, ◌≤◌, ◌<◌, ◌≡◌, ◌∙◌, sym, ap, ap₂, Bool, true, false, Option, some, List, [],
  ◌∷◌, ◌++◌, append-nil, append_assoc, leb, leb→le, ◌==◌, ◌&&◌, take, drop, length, length-drop,
  take-append-drop, take-add, arith,
}
use sancus_core.Base.Int.{ℤ, pos, neg_ℕ}
use sancus_core.Base.Memory.{Bytes}
use sancus_core.Fd.{Answer, done, fail, eintr, write_from, write}

-- The kernel takes no more than the `n` bytes that are left, and fails only by interruption.
abbrev pub obeys : List Answer → ℕ → Bool
obeys [] n = true
obeys (done k ∷ rest) n = leb k n && obeys rest (n - k)
obeys (fail e ∷ rest) n = (e == eintr) && obeys rest n

-- What it takes in all.
abbrev pub total : List Answer → ℕ
total [] = 0
total (done k ∷ rest) = k + total rest
total (fail e ∷ rest) = total rest

at_end :
    (wt : ℕ) (out : Bytes)
    → ◌≡◌ {A = Option (ℤ × Bytes)} (some (pos wt, out)) (some (pos (wt + 0), out ++ []))
at_end wt out = ap₂ (λ (n : ℕ) (t : Bytes). some (pos n, t)) (omega arith) (sym (append-nil out))

write_from_lem :
    (rest : List Answer) (s : Bytes) (wt : ℕ) (out : Bytes)
    → obeys rest (length s) ≡ true
    → length s ≤ total rest
    → write_from rest s wt out ≡ some (pos (wt + length s), out ++ s)
unfolding write_from
write_from_lem [] [] wt out h l = at_end wt out
write_from_lem (a ∷ rest) [] wt out h l = at_end wt out
write_from_lem [] (c ∷ s) wt out h l = absurd (omega arith)
write_from_lem (done k ∷ rest) (c ∷ s) wt out h l =
    write_from_lem rest (drop k (c ∷ s)) (wt + k) (out ++ take k (c ∷ s))
      (rw (length-drop k (c ∷ s)) (ground arith)) (omega (arith, length-drop k (c ∷ s)))
    ∙ ap₂ (λ (n : ℕ) (t : Bytes). some (pos n, t)) (omega (arith, length-drop k (c ∷ s), taken))
        (append_assoc out (take k (c ∷ s)) (drop k (c ∷ s))
          ∙ ap (λ (t : Bytes). out ++ t) (take-append-drop k (c ∷ s)))
  where
    taken : k ≤ suc (length s)
    taken = leb→le _ _ (ground arith)
write_from_lem (fail e ∷ rest) (c ∷ s) wt out h l =
    rw interrupted (write_from_lem rest (c ∷ s) wt out (ground arith) l)
  where
    interrupted : (e == eintr) ≡ true
    interrupted = ground arith

-- Where the kernel takes all bytes, in as many parts as it likes and with interruptions,
-- `sancus_write` ends, returns their number, and the bytes taken are the bytes given, in order.
pub write_lem :
    (rest : List Answer) (s : Bytes)
    → obeys rest (length s) ≡ true
    → length s ≤ total rest
    → write rest s ≡ some (pos (length s), s)
write_lem rest s h l =
    write_from_lem rest s 0 [] h l ∙ ap (λ (n : ℕ). some (pos n, s)) (omega arith)

write_from_error :
    (before : List Answer) (e : ℕ) (rest : List Answer) (s : Bytes) (wt : ℕ) (out : Bytes)
    → obeys before (length s) ≡ true
    → total before < length s
    → (e == eintr) ≡ false
    → write_from (before ++ (fail e ∷ rest)) s wt out ≡ some (neg_ℕ e, out ++ take (total before) s)
unfolding write_from
write_from_error b e rest [] wt out h l f = absurd (omega arith)
write_from_error [] e rest (c ∷ s) wt out h l f =
    rw f (ap (λ (t : Bytes). some (neg_ℕ e, t)) (sym (append-nil out)))
write_from_error (done k ∷ before) e rest (c ∷ s) wt out h l f =
    write_from_error before e rest (drop k (c ∷ s)) (wt + k) (out ++ take k (c ∷ s))
      (rw (length-drop k (c ∷ s)) (ground arith)) (omega (arith, length-drop k (c ∷ s))) f
    ∙ ap (λ (t : Bytes). some (neg_ℕ e, t))
        (append_assoc out (take k (c ∷ s)) (take (total before) (drop k (c ∷ s)))
          ∙ ap (λ (t : Bytes). out ++ t) (sym (take-add k (total before) (c ∷ s))))
write_from_error (fail i ∷ before) e rest (c ∷ s) wt out h l f =
    rw interrupted (write_from_error before e rest (c ∷ s) wt out (ground arith) l f)
  where
    interrupted : (i == eintr) ≡ true
    interrupted = ground arith

-- Where another error comes before the kernel has taken all bytes, `sancus_write` returns the
-- negated error; the bytes taken are the first of those given.
pub write_error :
    (before : List Answer) (e : ℕ) (rest : List Answer) (s : Bytes)
    → obeys before (length s) ≡ true
    → total before < length s
    → (e == eintr) ≡ false
    → write (before ++ (fail e ∷ rest)) s ≡ some (neg_ℕ e, take (total before) s)
write_error before e rest s h l f = write_from_error before e rest s 0 [] h l f
