-- ===== src/Socket/Leaks.antt =====
-- No descriptor is lost on the paths of `sancus_socket` and `sancus_accept`.
use sancus_core.Base.{
  ℕ, none, Bool, ◌||◌, List, [], ◌∷◌, ◌≡◌, refl, sym, ap, ◌∙◌, ◌==◌, Bool-cases, inl, inr,
}
use sancus_core.Base.Int.{ℤ, pos, negsuc}
use sancus_core.Fd.{Answer, done, fail, eintr}
use sancus_core.Sys.{Kernel, socket, get_flags, set_flags, close, accept, Entry}
use sancus_core.Sys.Rules.{Ensures, Ensures-map, call-Ensures, Called}
use sancus_core.Sys.Ledger.{
  is_open, Acquired, Made, last_attach, Opened, NoneOpened, Closed-NoneOpened,
}
use sancus_core.Socket.{
  socket_failed, set_wanted, configure, sancus_socket, socket_type, wanted_flags, sancus_accept,
  accept_from,
}

-- From an open descriptor on, the functions end with it open or with it closed.
module _ (before : List Entry) (fd : ℕ) where
  socket_failed-Made :
      (k : Kernel)
      → Opened (pos fd) before k.log
      → last_attach k.log ≡ none
      → Ensures (λ x k'. Made before x k'.log) (socket_failed fd k)
  unfolding socket_failed
  socket_failed-Made k opened quiet =
      call-Ensures _ (close (pos fd)) k _ (λ n. closed (done n)) (λ e. closed (fail e))
    where
      closed :
          (a : Answer) (k' : Kernel)
          → Called (close (pos fd)) k a k'
          → NoneOpened before k'.log × (last_attach k'.log ≡ none)
      closed a k' called = (
        Closed-NoneOpened (pos fd) before k.log k'.log opened (λ x. ap (is_open x) (called.0)),
        ap last_attach (called.0) ∙ quiet,
      )

  set_wanted-Made :
      (fl fl2 : ℕ) (k : Kernel)
      → Opened (pos fd) before k.log
      → Ensures (λ x k'. Made before x k'.log) (set_wanted fd fl fl2 k)
  unfolding set_wanted
  set_wanted-Made fl fl2 k opened = elim (Bool-cases (fl == fl2)) [
    | inl h ↦ rw h opened
    | inr h ↦ rw h (
        call-Ensures _ (set_flags (pos fd) fl2) k _
          (λ n k' called x. ap (is_open x) (called.0) ∙ opened x)
          (λ e k' called.
            socket_failed-Made k' (λ x. ap (is_open x) (called.0) ∙ opened x)
              (ap last_attach (called.0))))
  ]

  configure-Made :
      (cloexec nonblock : Bool) (k : Kernel)
      → Opened (pos fd) before k.log
      → last_attach k.log ≡ none
      → Ensures (λ x k'. Made before x k'.log) (configure fd cloexec nonblock k)
  unfolding configure
  configure-Made cloexec nonblock k opened quiet = elim (Bool-cases (cloexec || nonblock)) [
    | inr h ↦ rw h (socket_failed-Made k opened quiet)
    | inl h ↦ rw h (
        call-Ensures _ (get_flags (pos fd)) k _
          (λ fl k' called.
            set_wanted-Made fl (wanted_flags cloexec nonblock fl) k'
              (λ x. ap (is_open x) (called.0) ∙ opened x))
          (λ e k' called.
            socket_failed-Made k' (λ x. ap (is_open x) (called.0) ∙ opened x)
              (ap last_attach (called.0))))
  ]

pub sancus_socket-Made :
    (family type protocol : ℕ) (cloexec nonblock : Bool) (k : Kernel)
    → Ensures (λ x k'. Made k.log x k'.log) (sancus_socket family type protocol cloexec nonblock k)
unfolding sancus_socket
sancus_socket-Made family type protocol cloexec nonblock k =
    call-Ensures _ (socket family (socket_type type cloexec nonblock) protocol) k _
      (λ fd k' called.
        configure-Made k.log fd cloexec nonblock k' (λ x. ap (is_open x) (called.0))
          (ap last_attach (called.0)))
      (λ e k' called. ((λ x h. sym (ap (is_open x) (called.0)) ∙ h), ap last_attach (called.0)))

-- Where `sancus_socket` returns a descriptor, it is open and no other was opened or closed; where
-- it returns -1, whichever call failed, nothing is open that was not. No assertion fails.
pub sancus_socket_lem :
    (family type protocol : ℕ) (cloexec nonblock : Bool) (k : Kernel)
    → Ensures
        (λ x k'. Acquired k.log x k'.log)
        (sancus_socket family type protocol cloexec nonblock k)
sancus_socket_lem family type protocol cloexec nonblock k =
    Ensures-map _ _ (sancus_socket family type protocol cloexec nonblock k)
      (sancus_socket-Made family type protocol cloexec nonblock k)
      (λ x k' made. acquired x k'.log made)
  where
    acquired : (x : ℤ) (log : List Entry) → Made k.log x log → Acquired k.log x log
    acquired (pos n) log made = made
    acquired (negsuc n) log made = made.0

accept_from-Acquired :
    (fd : ℤ) (answers : List Answer) (k : Kernel)
    → Ensures (λ x k'. Acquired k.log x k'.log) (accept_from fd answers k)
unfolding accept_from
accept_from-Acquired fd [] k = tt
accept_from-Acquired fd (done n ∷ rest) k = λ x. refl
accept_from-Acquired fd (fail e ∷ rest) k =
    let k' : Kernel = record {
      answers = rest;
      log = record { call = accept fd; answer = fail e } ∷ k.log;
      errno = e;
    } in
    elim (Bool-cases (e == eintr)) [
      | inl h ↦ rw h (
          Ensures-map _ _ (accept_from fd rest k') (accept_from-Acquired fd rest k')
            (λ x k'' acquired. elim x [ pos n ↦ acquired | negsuc n ↦ acquired ]))
      | inr h ↦ rw h (λ x h. h)
    ]

pub sancus_accept_lem :
    (fd : ℤ) (k : Kernel) → Ensures (λ x k'. Acquired k.log x k'.log) (sancus_accept fd k)
unfolding sancus_accept
sancus_accept_lem fd k = accept_from-Acquired fd k.answers k
