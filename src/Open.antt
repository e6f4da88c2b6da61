-- ===== src/Open.antt =====
-- The part of src/sancus/fd.c that opens files, over the log of the calls.
pub mod Leaks
mod Tests
use Prim.Native.Nat.{bit_and, bit_or}
use sancus_core.Base.{ℕ, Bool, true, false, List, [], ◌∷◌, ◌==◌, if◌then◌else◌}
use sancus_core.Base.Int.{ℤ, pos, negsuc, neg_ℕ}
use sancus_core.Base.Memory.{Bytes}
use sancus_core.Fd.{Answer, done, fail, eintr}
use sancus_core.Sys.{
  Kernel, Result, returns, waits, aborts, Sys, pure, ◌>>=◌, ◌>>◌, set_errno, Call, get_flags,
  set_flags, openat, Entry, syscall, close_fd,
}
use sancus_core.Socket.{put_flag, fd_cloexec}

-- `O_CLOEXEC` and `AT_FDCWD`
abbrev pub o_cloexec : ℕ
o_cloexec = 0x80000

abbrev pub at_fdcwd : ℤ
at_fdcwd = neg_ℕ 100

-- `open_failed`, with the `errno` of the call that failed.
unfoldable pub open_failed : ℕ → ℕ → Sys ℤ
open_failed fd e = do _ ← close_fd (pos fd); _ ← set_errno e; pure (neg_ℕ e)

-- The flags of the new descriptor.
unfoldable pub mark : ℕ → ℕ → Sys ℤ
unfolding open_failed
mark fd fl =
    if bit_and fl fd_cloexec == 0
    then (syscall (set_flags (pos fd) (bit_or fl fd_cloexec)) >>= λ a. elim a [
      | done n ↦ pure (pos fd)
      | fail e ↦ open_failed fd e
    ])
    else pure (pos fd)

unfoldable pub opened : Bool → ℕ → Sys ℤ
unfolding open_failed mark
opened cloexec fd =
    if cloexec
    then (syscall (get_flags (pos fd)) >>= λ a. elim a [
      | done fl ↦ mark fd fl
      | fail e ↦ open_failed fd e
    ])
    else pure (pos fd)

-- `open_retry`, up to the first answer that is no interruption: a descriptor, or -1.
unfoldable pub open_from : Call → List Answer → Kernel → Result ℤ
open_from c [] k = waits
open_from c (done n ∷ rest) k =
    returns (pos n)
      (record k { answers = rest; log = record { call = c; answer = done n } ∷ k.log })
open_from c (fail e ∷ rest) k =
    let k' : Kernel = record {
      answers = rest;
      log = record { call = c; answer = fail e } ∷ k.log;
      errno = e;
    } in
    let again = open_from c rest k' in if e == eintr then again else returns (negsuc 0) k'

-- What follows `open_retry`.
unfoldable pub settle : Bool → ℤ → Sys ℤ
unfolding opened
settle cloexec (pos fd) = opened cloexec fd
settle cloexec (negsuc n) = pure (negsuc n)

-- `sancus__openat`
unfoldable pub openat_impl : ℤ → Bytes → ℕ → Bool → ℕ → Sys ℤ
unfolding open_from settle
openat_impl dir path flags cloexec mode k =
    (open_from (openat dir path (put_flag cloexec o_cloexec flags) mode) k.answers
        >>= settle cloexec)
      k

-- `sancus_openat` and `sancus_open`
abbrev pub sancus_openat : ℤ → Bytes → ℕ → Bool → ℕ → Sys ℤ
sancus_openat dir path flags cloexec mode = openat_impl dir path flags cloexec mode

abbrev pub sancus_open : Bytes → ℕ → Bool → ℕ → Sys ℤ
sancus_open path flags cloexec mode = openat_impl at_fdcwd path flags cloexec mode
