-- ===== src/Server/Idle.antt =====
-- A server that listens is not active yet.
use sancus_core.Base.{ℕ, Bool, true, false, Option, none, some, ◌≡◌, Bool-cases, inl, inr}
use sancus_core.Base.Int.{ℤ, pos, negsuc, eqb_ℤ}
use sancus_core.Base.Memory.{Bytes}
use sancus_core.Sys.{Kernel, Sys, Address, bind, listen}
use sancus_core.Sys.Rules.{
  Partially, >>=-Partially, nothing-Partially, lift-Partially, call-Partially,
}
use sancus_core.Ev.{Ev, server_connect}
use sancus_core.Ev.Owned.{Starting}
use sancus_core.Socket.{sancus_socket, sock_stream}
use sancus_core.Server.{
  Server, Settings, close_connect, set_options, not_bound, bind_listen, prepare, bind_socket,
  init_tcp, listen_on, ipv4_listen, ipv6_listen, listen_at, local_listen, init_ipv4, init_ipv6,
  init_local,
}

module _ {W : Type 0} (ev : Ev W) where
  -- A hook that leaves an idle watcher idle.
  abbrev pub Idles : Option (Server W → Sys (Server W)) → Type 0
  Idles none = Unit
  Idles (some f) =
      (s : Server W) (k : Kernel)
      → ev.is_active s.connect ≡ false
      → Partially (λ s' k'. ev.is_active s'.connect ≡ false) (f s k)

  abbrev pub Idle : ℤ × Server W → Kernel → Type 0
  Idle (rc, s) k = eqb_ℤ rc (pos 1) ≡ true → ev.is_active s.connect ≡ false

  not_bound-Idle : (e : ℕ) (s : Server W) (k : Kernel) → Partially Idle (not_bound ev e s k)
  unfolding not_bound
  not_bound-Idle e s k =
      >>=-Partially _ Idle (close_connect ev s k) _ (nothing-Partially (close_connect ev s k))
        (λ s' k' _ h. absurd (cc))

  bind_listen-Idle :
      (fd : ℕ) (sa : Address) (backlog : ℕ) (s : Server W) (k : Kernel)
      → ev.is_active s.connect ≡ false
      → Partially Idle (bind_listen ev fd sa backlog s k)
  unfolding bind_listen
  bind_listen-Idle fd sa backlog s k idle =
      call-Partially Idle (bind (pos fd) sa) k _
        (λ n k'.
          call-Partially Idle (listen (pos fd) backlog) k' _ (λ m k'' h. idle)
            (λ e k''. not_bound-Idle e s k''))
        (λ e k'. not_bound-Idle e s k')

  prepare-Idle :
      (pre_bind : Option (Server W → Sys (Server W))) (s : Server W) (k : Kernel)
      → Idles pre_bind
      → ev.is_active s.connect ≡ false
      → Partially (λ s' k'. ev.is_active s'.connect ≡ false) (prepare ev pre_bind s k)
  prepare-Idle none s k hook idle = idle
  prepare-Idle (some f) s k hook idle = hook s k idle

  module _ (starting : Starting ev) where
    bind_socket-Idle :
        (pre_bind : Option (Server W → Sys (Server W))) (sa : Address) (backlog : ℕ) (fd : ℤ)
        (s : Server W) (k : Kernel)
        → Idles pre_bind
        → Partially Idle (bind_socket ev pre_bind sa backlog fd s k)
    unfolding bind_socket
    bind_socket-Idle pre_bind sa backlog (negsuc n) s k hook = λ h. absurd cc
    bind_socket-Idle pre_bind sa backlog (pos fd) s k hook =
        let watched : Server W = record s {
          connect = (ev.init server_connect (pos fd) ev.read_bit s.connect).1;
        } in
        >>=-Partially _ Idle (set_options (pos fd) sa.family k) _ (nothing-Partially _) (λ _ k1 _.
          >>=-Partially _ Idle (prepare ev pre_bind watched k1) _
            (prepare-Idle pre_bind watched k1 hook
              (starting.is_active-init server_connect (pos fd) ev.read_bit s.connect))
            (λ s' k2 idle. bind_listen-Idle fd sa backlog s' k2 idle))

    init_tcp-Idle :
        (pre_bind : Option (Server W → Sys (Server W))) (sa : Address) (cloexec : Bool)
        (backlog : ℕ) (s : Server W) (k : Kernel)
        → Idles pre_bind
        → Partially Idle (init_tcp ev pre_bind sa cloexec backlog s k)
    unfolding init_tcp
    init_tcp-Idle pre_bind sa cloexec backlog s k hook =
        >>=-Partially _ Idle (sancus_socket sa.family sock_stream 0 cloexec true k) _
          (nothing-Partially _) (λ fd k' _. bind_socket-Idle pre_bind sa backlog fd s k' hook)

    module _ {A : Type 0} (settings : Settings W A) (hook : Idles settings.pre_bind)
        (cloexec : Bool) (backlog : ℕ) (s : Server W) (k : Kernel) where
      listen_on-Idle :
          (found : ℤ × Address) → Partially Idle (listen_on ev settings found cloexec backlog s k)
      listen_on-Idle (rc, sa) = elim (Bool-cases (eqb_ℤ rc (pos 1))) [
        | inl h ↦ rw h (init_tcp-Idle settings.pre_bind sa cloexec backlog s k hook)
        | inr h ↦ rw h (λ e. absurd cc)
      ]

      pub ipv4_listen-Idle :
          (inet_pton : ℕ → Bytes → ℤ × Bytes) (addr : Option Bytes) (port : ℕ)
          → Partially Idle (ipv4_listen ev settings inet_pton addr port cloexec backlog s k)
      unfolding ipv4_listen
      ipv4_listen-Idle inet_pton addr port = listen_on-Idle (init_ipv4 inet_pton addr port)

      pub ipv6_listen-Idle :
          (inet_pton : ℕ → Bytes → ℤ × Bytes) (addr : Option Bytes) (port : ℕ)
          → Partially Idle (ipv6_listen ev settings inet_pton addr port cloexec backlog s k)
      unfolding ipv6_listen
      ipv6_listen-Idle inet_pton addr port = listen_on-Idle (init_ipv6 inet_pton addr port)

    pub local_listen-Idle :
        {A : Type 0} (settings : Settings W A) (path : Option Bytes) (cloexec : Bool) (backlog : ℕ)
        (s : Server W) (k : Kernel)
        → Idles settings.pre_bind
        → Partially Idle (local_listen ev settings path cloexec backlog s k)
    unfolding local_listen listen_at
    local_listen-Idle settings path cloexec backlog s k hook =
        lift-Partially Idle (init_local path) k _ (λ found _.
          elim (Bool-cases (eqb_ℤ (found.0) (pos 1))) [
            | inl h ↦ rw h (
                >>=-Partially _ Idle _ _ (nothing-Partially _)
                  (λ a k' _. init_tcp-Idle settings.pre_bind (found.1) cloexec backlog s k' hook))
            | inr h ↦ rw h (λ e. absurd cc)
          ])
