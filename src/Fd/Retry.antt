-- ===== src/Fd/Retry.antt =====
-- Interrupted calls are made again.
use sancus_core.Base.{ℕ, zero, suc, ◌≡◌, refl, ◌==◌, false, some, List, ◌∷◌, ◌++◌, replicate}
use sancus_core.Base.Int.{pos, neg_ℕ}
use sancus_core.Fd.{Answer, done, fail, eintr, read, close}

-- After any number of interruptions, `sancus_read` returns what the next call returns, and makes no
-- other call: its count, or its error.
pub read_lem :
    (k n e : ℕ) (rest : List Answer)
    → ((e == eintr) ≡ false)
    → (read (replicate k (fail eintr) ++ (done n ∷ rest)) ≡ some (pos n, rest))
      × (read (replicate k (fail eintr) ++ (fail e ∷ rest)) ≡ some (neg_ℕ e, rest))
unfolding read
read_lem zero n e rest h = (refl, rw h)
read_lem (suc k) n e rest h = read_lem k n e rest h

-- `sancus_close` likewise.
pub close_lem :
    (k n e : ℕ) (rest : List Answer)
    → ((e == eintr) ≡ false)
    → (close (replicate k (fail eintr) ++ (done n ∷ rest)) ≡ some (pos 0, rest))
      × (close (replicate k (fail eintr) ++ (fail e ∷ rest)) ≡ some (neg_ℕ e, rest))
unfolding close
close_lem zero n e rest h = (refl, rw h)
close_lem (suc k) n e rest h = close_lem k n e rest h
