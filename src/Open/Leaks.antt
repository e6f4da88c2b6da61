-- ===== src/Open/Leaks.antt =====
-- A file that is opened has its descriptor; where an error is returned, none is left open.
use sancus_core.Base.{
  ℕ, Bool, true, false, List, [], ◌∷◌, ◌≡◌, ◌⊎◌, refl, ap, ◌∙◌, ◌==◌, Bool-cases, inl, inr,
}
use Prim.Native.Nat.{bit_and, bit_or}
use sancus_core.Base.Int.{ℤ, pos, negsuc, neg_ℕ}
use sancus_core.Base.Memory.{Bytes}
use sancus_core.Fd.{Answer, done, fail, eintr}
use sancus_core.Sys.{Kernel, Call, get_flags, set_flags, openat, Entry, close_fd}
use sancus_core.Sys.Rules.{Ensures, >>=-Ensures, call-Ensures}
use sancus_core.Sys.Ledger.{is_open, Opened, NoneOpened, Closed-NoneOpened}
use sancus_core.Sys.Closing.{close_fd-Shut}
use sancus_core.Socket.{put_flag, fd_cloexec}
use sancus_core.Open.{
  open_failed, mark, opened, open_from, settle, openat_impl, o_cloexec, sancus_openat,
}

-- Either the result is a descriptor, which is open, the only one opened, or nothing is open that was
-- not, and the result is -1 or -errno.
abbrev pub Opens : List Entry → ℤ → Kernel → Type 0
Opens before x k' =
    ((fd : ℕ) × (x ≡ pos fd) × Opened (pos fd) before k'.log)
    ⊎ (NoneOpened before k'.log × ((x ≡ negsuc 0) ⊎ (x ≡ neg_ℕ k'.errno)))

module _ (before : List Entry) (fd : ℕ) where
  open_failed-Opens :
      (e : ℕ) (k : Kernel)
      → Opened (pos fd) before k.log
      → Ensures (Opens before) (open_failed fd e k)
  unfolding open_failed
  open_failed-Opens e k opened =
      >>=-Ensures _ _ (close_fd (pos fd) k) _ (close_fd-Shut (pos fd) k) (λ rc k' shut.
        inr (Closed-NoneOpened (pos fd) before k.log k'.log opened (shut.0), inr refl))

  mark-Opens :
      (fl : ℕ) (k : Kernel) → Opened (pos fd) before k.log → Ensures (Opens before) (mark fd fl k)
  unfolding mark
  mark-Opens fl k opened = elim (Bool-cases (bit_and fl fd_cloexec == 0)) [
    | inr h ↦ rw h (inl (fd, refl, opened))
    | inl h ↦ rw h (
        call-Ensures _ (set_flags (pos fd) (bit_or fl fd_cloexec)) k _
          (λ n k' called. inl (fd, refl, λ x. ap (is_open x) (called.0) ∙ opened x))
          (λ e k' called. open_failed-Opens e k' (λ x. ap (is_open x) (called.0) ∙ opened x)))
  ]

  opened-Opens :
      (cloexec : Bool) (k : Kernel)
      → Opened (pos fd) before k.log
      → Ensures (Opens before) (opened cloexec fd k)
  unfolding opened
  opened-Opens false k opened = inl (fd, refl, opened)
  opened-Opens true k opened =
      call-Ensures _ (get_flags (pos fd)) k _
        (λ fl k' called. mark-Opens fl k' (λ x. ap (is_open x) (called.0) ∙ opened x))
        (λ e k' called. open_failed-Opens e k' (λ x. ap (is_open x) (called.0) ∙ opened x))

-- What `open_retry` leaves: a descriptor, or -1.
abbrev Tried : List Entry → ℤ → Kernel → Type 0
Tried before x k' =
    ((fd : ℕ) × (x ≡ pos fd) × Opened (pos fd) before k'.log)
    ⊎ ((x ≡ negsuc 0) × NoneOpened before k'.log)

open_from-Tried :
    (dir : ℤ) (path : Bytes) (flags mode : ℕ) (answers : List Answer) (k : Kernel)
    → Ensures (Tried k.log) (open_from (openat dir path flags mode) answers k)
unfolding open_from
open_from-Tried dir path flags mode [] k = tt
open_from-Tried dir path flags mode (done n ∷ rest) k = inl (n, refl, λ x. refl)
open_from-Tried dir path flags mode (fail e ∷ rest) k =
    let c : Call = openat dir path flags mode in
    let k' : Kernel = record {
      answers = rest;
      log = record { call = c; answer = fail e } ∷ k.log;
      errno = e;
    } in
    elim (Bool-cases (e == eintr)) [
      | inl h ↦ rw h (open_from-Tried dir path flags mode rest k')
      | inr h ↦ rw h (inr (refl, λ x g. g))
    ]

-- `sancus_openat`, and so `sancus_open`, with any answers of the kernel: however often the call is
-- interrupted, it ends with a descriptor that is open, the only one opened, or with an error and
-- nothing open that was not. The error is -1, or -errno where a later call failed.
pub openat_lem :
    (dir : ℤ) (path : Bytes) (flags : ℕ) (cloexec : Bool) (mode : ℕ) (k : Kernel)
    → Ensures (Opens k.log) (sancus_openat dir path flags cloexec mode k)
unfolding openat_impl settle
openat_lem dir path flags cloexec mode k =
    >>=-Ensures (Tried k.log) (Opens k.log)
      (open_from (openat dir path (put_flag cloexec o_cloexec flags) mode) k.answers k)
      (settle cloexec)
      (open_from-Tried dir path (put_flag cloexec o_cloexec flags) mode k.answers k)
      (λ x k' tried. elim tried [
        | inl found ↦
            let (fd, is, open_now) = found in rw is (opened-Opens k.log fd cloexec k' open_now)
        | inr lost ↦ rw (lost.0) (inr (lost.1, inl refl))
      ])
