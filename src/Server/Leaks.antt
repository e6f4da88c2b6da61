-- ===== src/Server/Leaks.antt =====
-- A server that listens has its descriptor; where none does, none is left open.
use sancus_core.Base.{
  ℕ, zero, suc, Bool, true, Option, none, some, List, ◌∷◌, Bool-cases, ◌≡◌, refl, ap, ◌∙◌, ◌==◌,
  inl, inr,
}
use sancus_core.Base.Int.{ℤ, pos, negsuc}
use sancus_core.Fd.{done, fail}
use sancus_core.Sys.{Kernel, Sys, Address, bind, listen, set_option, Entry, syscall, close_fd}
use sancus_core.Sys.Rules.{Ensures, Ensures-map, syscall-Ensures, >>=-Ensures, call-Ensures}
use sancus_core.Sys.Ledger.{Refused, Made-Refused, is_open, Made, last_attach, Opened, Same}
use sancus_core.Sys.Closing.{Shut, close_fd-Shut, Shut-Refused}
use sancus_core.Ev.{Ev, Keeping, server_connect}
use sancus_core.Socket.{sancus_socket, sock_stream, af_local}
use sancus_core.Socket.Leaks.{sancus_socket-Made}
use sancus_core.Server.{
  Server, set_options, close_connect, not_bound, bind_listen, prepare, bind_socket, init_tcp,
}

-- The log of a server that listens: the last calls bound the descriptor and made it listen.
abbrev pub Listening : ℕ → ℕ → List Entry → Type 0
Listening fd backlog log =
    (sa : Address) × (m n : ℕ) × (rest : List Entry) × (log
      ≡ record { call = listen (pos fd) backlog; answer = done n }
        ∷ record { call = bind (pos fd) sa; answer = done m }
        ∷ rest)

-- What a function owes that makes `s` listen: with 1, the watcher has a descriptor that is open, the
-- only one opened, and that listens; with 0, nothing was opened or closed; with -1, nothing is open
-- that was not, and `errno` is what `bind` or `listen` left where they were made.
abbrev pub Listens :
    {W : Type 0} → Ev W → ℕ → Server W → List Entry → ℤ × Server W → Kernel → Type 0
Listens ev backlog s before (pos zero, s') k' = (s' ≡ s) × Same before k'.log
Listens ev backlog s before (pos (suc n), s') k' =
    (n ≡ 0)
    × ((fd : ℕ) × (ev.fd s'.connect ≡ pos fd)
        × Opened (pos fd) before k'.log
        × Listening fd backlog k'.log)
Listens ev backlog s before (negsuc n, s') k' = Refused before k'

-- A hook that fails no assertion, opens and closes nothing, and leaves the watcher its descriptor.
abbrev pub Discreet : {W : Type 0} → Ev W → (Server W → Sys (Server W)) → Type 0
Discreet {W = W} ev f =
    (s : Server W) (k : Kernel)
    → Ensures (λ s' k'. (ev.fd s'.connect ≡ ev.fd s.connect) × Same k.log k'.log) (f s k)

set_option-Same :
    (fd : ℤ) (o v : ℕ) (k : Kernel)
    → Ensures (λ a k'. Same k.log k'.log) (syscall (set_option fd o v) k)
set_option-Same fd o v k =
    Ensures-map _ _ (syscall (set_option fd o v) k) (syscall-Ensures (set_option fd o v) k)
      (λ a k' called x. ap (is_open x) (called.0))

set_options-Same :
    (fd : ℤ) (family : ℕ) (k : Kernel)
    → Ensures (λ _ k'. Same k.log k'.log) (set_options fd family k)
unfolding set_options
set_options-Same fd family k = elim (Bool-cases (family == af_local)) [
  | inl h ↦ rw h (λ x. refl)
  | inr h ↦ rw h (
      >>=-Ensures _ _ (syscall (set_option fd 2 1) k) _ (set_option-Same fd 2 1 k) (λ a k1 same1.
        >>=-Ensures _ _ (syscall (set_option fd 9 1) k1) _ (set_option-Same fd 9 1 k1)
          (λ b k2 same2.
            >>=-Ensures _ _ (syscall (set_option fd 13 0) k2) _ (set_option-Same fd 13 0 k2)
              (λ c k3 same3 x. same3 x ∙ same2 x ∙ same1 x))))
]

module _ {W : Type 0} (ev : Ev W) (keeping : Keeping ev) (backlog : ℕ) where
  not_bound-Listens :
      (s0 s : Server W) (before : List Entry) (k : Kernel) (fd e : ℕ)
      → ev.fd s.connect ≡ pos fd
      → Opened (pos fd) before k.log
      → last_attach k.log ≡ some (fail e)
      → Ensures (Listens ev backlog s0 before) (not_bound ev e s k)
  unfolding not_bound
  not_bound-Listens s0 s before k fd e own opened last =
      >>=-Ensures _ _ (close_connect ev s k) _
        (>>=-Ensures _ (λ s' k'. Shut (ev.fd s.connect) k k') (close_fd (ev.fd s.connect) k) _
          (close_fd-Shut (ev.fd s.connect) k) (λ rc k' shut. shut))
        (λ s' k' shut. Shut-Refused before k k' fd e (ev.fd s.connect) own opened last shut)

  bind_listen-Listens :
      (fd : ℕ) (sa : Address) (s0 s : Server W) (before : List Entry) (k : Kernel)
      → ev.fd s.connect ≡ pos fd
      → Opened (pos fd) before k.log
      → Ensures (Listens ev backlog s0 before) (bind_listen ev fd sa backlog s k)
  unfolding bind_listen
  bind_listen-Listens fd sa s0 s before k own opened =
      call-Ensures _ (bind (pos fd) sa) k _
        (λ m k' called.
          call-Ensures _ (listen (pos fd) backlog) k' _
            (λ n k'' called'. (
              refl,
              (
                fd,
                own,
                (λ x. ap (is_open x) (called'.0) ∙ ap (is_open x) (called.0) ∙ opened x),
                (
                  sa,
                  m,
                  n,
                  k.log,
                  called'.0
                      ∙ ap (λ l. record { call = listen (pos fd) backlog; answer = done n } ∷ l)
                          (called.0),
                ),
              ),
            ))
            (λ e k'' called'.
              not_bound-Listens s0 s before k'' fd e own
                (λ x. ap (is_open x) (called'.0) ∙ ap (is_open x) (called.0) ∙ opened x)
                (ap last_attach (called'.0))))
        (λ e k' called.
          not_bound-Listens s0 s before k' fd e own (λ x. ap (is_open x) (called.0) ∙ opened x)
            (ap last_attach (called.0)))

  -- The hook, where there is one.
  abbrev pub Hook : Option (Server W → Sys (Server W)) → Type 0
  Hook none = Unit
  Hook (some f) = Discreet ev f

  prepare-Discreet :
      (pre_bind : Option (Server W → Sys (Server W)))
      → Hook pre_bind
      → Discreet ev (prepare ev pre_bind)
  prepare-Discreet none hook s k = (refl, λ x. refl)
  prepare-Discreet (some f) hook s k = hook s k

  bind_socket-Listens :
      (pre_bind : Option (Server W → Sys (Server W))) (sa : Address) (fd : ℤ) (s : Server W)
      (before : List Entry) (k : Kernel)
      → Hook pre_bind
      → Made before fd k.log
      → Ensures (Listens ev backlog s before) (bind_socket ev pre_bind sa backlog fd s k)
  unfolding bind_socket
  bind_socket-Listens pre_bind sa (negsuc n) s before k hook made = Made-Refused n before k made
  bind_socket-Listens pre_bind sa (pos fd) s before k hook made =
      let watched : Server W = record s {
        connect = (ev.init server_connect (pos fd) ev.read_bit s.connect).1;
      } in
      >>=-Ensures _ _ (set_options (pos fd) sa.family k) _ (set_options-Same (pos fd) sa.family k)
        (λ _ k1 same1.
          >>=-Ensures _ _ (prepare ev pre_bind watched k1) _
            (prepare-Discreet pre_bind hook watched k1)
            (λ s' k2 same2.
              bind_listen-Listens fd sa s s' before k2
                (same2.0 ∙ keeping.fd-init server_connect (pos fd) ev.read_bit s.connect)
                (λ x. (same2.1) x ∙ same1 x ∙ made x)))

  pub init_tcp-Listens :
      (pre_bind : Option (Server W → Sys (Server W))) (sa : Address) (cloexec : Bool) (s : Server W)
      (k : Kernel)
      → Hook pre_bind
      → Ensures (Listens ev backlog s k.log) (init_tcp ev pre_bind sa cloexec backlog s k)
  unfolding init_tcp
  init_tcp-Listens pre_bind sa cloexec s k hook =
      >>=-Ensures _ _ (sancus_socket sa.family sock_stream 0 cloexec true k) _
        (sancus_socket-Made sa.family sock_stream 0 cloexec true k)
        (λ fd k' made. bind_socket-Listens pre_bind sa fd s k.log k' hook made)
