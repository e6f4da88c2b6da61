-- ===== src/Fd.antt =====
-- include/sancus/fd.h and src/sancus/fd.c: system calls that are tried again. What the kernel
-- answers to the calls made one after the other is a list; a function that is still waiting for an
-- answer where the list ends returns `none`.
pub mod Retry
pub mod Write
pub mod Consume
mod Tests
use sancus_core.Base.{
  ℕ, zero, suc, ◌+◌, ◌-◌, Bool, true, false, Option, none, some, List, [], ◌∷◌, ◌++◌, ltb, leb,
  ◌==◌, if◌then◌else◌, take, drop, length,
}
use sancus_core.Base.Int.{ℤ, pos, negsuc, neg_ℕ}
use sancus_core.Base.Memory.{Bytes}
use sancus_core.Base.Word.{einval}

-- What a system call comes to: a result of 0 or more, or -1 with `errno`.
pub data Answer : Type 0 where
  done : ℕ → Answer
  fail : ℕ → Answer

-- `EINTR`
abbrev pub eintr : ℕ
eintr = 4

-- `sancus_close`, with the answers that are left; the result of `close` is 0 or -1.
unfoldable pub close : List Answer → Option (ℤ × List Answer)
close [] = none
close (done n ∷ rest) = some (pos 0, rest)
close (fail e ∷ rest) = let again = close rest in if e == eintr then again else some (neg_ℕ e, rest)

-- `sancus_close2`: the descriptor that is left in `*fd`, where there is one.
unfoldable pub close2 : Option ℤ → List Answer → Option (ℤ × Option ℤ × List Answer)
close2 none rest = some (pos 0, none, rest)
close2 (some fd) rest = elim (close rest) [
  | none ↦ none
  | some (rc, left) ↦ some (rc, some (negsuc 0), left)
]

-- `sancus_read`: the result, and the answers that are left.
unfoldable pub read : List Answer → Option (ℤ × List Answer)
read [] = none
read (done n ∷ rest) = some (pos n, rest)
read (fail e ∷ rest) = let again = read rest in if e == eintr then again else some (neg_ℕ e, rest)

-- The loop of `sancus_write`: the bytes left, the count of those written, and the bytes that the
-- kernel took. `write` takes the first `n` bytes of those it is offered.
unfoldable pub write_from : List Answer → Bytes → ℕ → Bytes → Option (ℤ × Bytes)
write_from rest [] wt out = some (pos wt, out)
write_from [] (c ∷ s) wt out = none
write_from (done n ∷ rest) (c ∷ s) wt out =
    write_from rest (drop n (c ∷ s)) (wt + n) (out ++ take n (c ∷ s))
write_from (fail e ∷ rest) (c ∷ s) wt out =
    let again = write_from rest (c ∷ s) wt out in if e == eintr then again else some (neg_ℕ e, out)

-- `sancus_write`
abbrev pub write : List Answer → Bytes → Option (ℤ × Bytes)
write rest s = write_from rest s 0 []

-- `struct iovec`: the memory that `iov_base` leads to, from the offset on.
pub record Iovec : Type 0 where
  pub memory : Bytes
  pub offset : ℕ
  pub len : ℕ

-- `iov_base += wc; iov_len -= n;`
abbrev pub advance : Iovec → ℕ → ℕ → Iovec
advance v n wc = record v { offset = v.offset + wc; len = v.len - n }

-- The inner loop of `sancus_writev`, over the entries left: `wc` bytes were written, `n` of them
-- are not consumed yet. A kernel that reports no more than it was offered never exhausts the array.
unfoldable pub consume : List Iovec → ℕ → ℕ → List Iovec
consume [] n wc = []
consume (v ∷ vs) zero wc = v ∷ vs
consume (v ∷ vs) (suc n) wc =
    let behind = consume vs (suc n - v.len) wc in
    if leb v.len (suc n) then behind else advance v (suc n) wc ∷ vs

-- The bytes that the entries offer.
abbrev pub offered : List Iovec → Bytes
offered [] = []
offered (v ∷ vs) = take v.len (drop v.offset v.memory) ++ offered vs

-- The outer loop of `sancus_writev`.
unfoldable pub writev_from : List Answer → List Iovec → ℕ → Bytes → Option (ℤ × Bytes)
writev_from rest [] wt out = some (pos wt, out)
writev_from [] (v ∷ vs) wt out = none
writev_from (done n ∷ rest) (v ∷ vs) wt out =
    writev_from rest (consume (v ∷ vs) n n) (wt + n) (out ++ take n (offered (v ∷ vs)))
writev_from (fail e ∷ rest) (v ∷ vs) wt out =
    let again = writev_from rest (v ∷ vs) wt out in
    if e == eintr then again else some (neg_ℕ e, out)

-- `sancus_writev`
unfoldable pub writev : List Answer → List Iovec → ℤ → Option (ℤ × Bytes)
writev rest vs (negsuc n) = some (einval, [])
writev rest vs (pos n) = writev_from rest (take n vs) 0 []
