-- ===== src/Server.antt =====
-- src/sancus/tcp_server.c and include/sancus/tcp_server.h: servers. As in Conn, the event library is
-- an `Ev`, the application the callbacks of its settings, and `inet_pton` an argument. The address of a
-- peer is not part of the model.
pub mod Leaks
pub mod Listen
pub mod Idle
pub mod Session
pub mod Life
pub mod Accept
mod Tests
use sancus_core.Base.{
  ℕ, Bool, true, false, not, ◌||◌, ◌&&◌, Option, none, some, List, [], ◌∷◌, ◌++◌, ltb, ◌==◌,
  if◌then◌else◌, length, replicate,
}
use sancus_core.Base.Int.{ℤ, pos, negsuc, leb_ℤ, ltb_ℤ, eqb_ℤ}
use sancus_core.Base.Memory.{Bytes, store}
use sancus_core.Base.Outcome.{Outcome, ok, fault, abort}
use sancus_core.Fd.{Answer, done, fail}
use sancus_core.Sys.{
  Kernel, Result, returns, waits, aborts, Sys, pure, ◌>>=◌, ◌>>◌, assert, set_errno, lift, Address,
  Call, bind, listen, set_option, unlink, syscall, close_fd,
}
use sancus_core.Ev.{Ev, Loop, has, Handler, server_connect}
use sancus_core.Socket.{
  sancus_socket, sancus_accept, htons, af_local, af_inet, af_inet6, sock_stream, sun_path,
}

-- `enum sancus_tcp_server_error`
pub data Error : Type 0 where
  accept_error : Error

-- `struct sancus_tcp_server`, less the pointer to its settings.
pub record Server (W : Type 0) : Type 0 where
  pub connect : W

-- The server, the loop and what the application keeps.
pub record World (W : Type 0) (A : Type 0) : Type 0 where
  pub server : Server W
  pub loop : Loop
  pub app : A

-- `struct sancus_tcp_server_settings`
pub record Settings (W : Type 0) (A : Type 0) : Type 0 where
  pub pre_bind : Option (Server W → Sys (Server W))
  pub on_connect : ℕ → World W A → Sys (Bool × World W A)
  pub on_error : Error → World W A → Sys (World W A)

module _ {W : Type 0} (ev : Ev W) {A : Type 0} (settings : Settings W A) where
  -- What becomes of the result of `accept`.
  unfoldable pub accepted : ℤ → World W A → Sys (World W A)
  accepted (negsuc n) w = settings.on_error accept_error w
  accepted (pos fd) w = do
    (wanted, w') ← settings.on_connect fd w
    if wanted then pure w' else (close_fd (pos fd) >>= λ _. pure w')

  -- `connect_cb`
  unfoldable pub connect_cb : ℕ → World W A → Sys (World W A)
  unfolding accepted
  connect_cb revents w =
      assert (not (has revents ev.error_bit))
      >> (if has revents ev.read_bit
          then (sancus_accept (ev.fd w.server.connect) >>= λ fd. accepted fd w)
          else pure w)

-- "NULL, "", "0" and "*" mean any address"
abbrev pub any_ipv4 : Option Bytes → Bool
any_ipv4 none = true
any_ipv4 (some []) = true
any_ipv4 (some (c ∷ [])) = (c == 48) || (c == 42)
any_ipv4 (some (c ∷ d ∷ rest)) = false

-- "NULL, "", "*" and "::" mean any address"
abbrev pub any_ipv6 : Option Bytes → Bool
any_ipv6 none = true
any_ipv6 (some []) = true
any_ipv6 (some (c ∷ [])) = c == 42
any_ipv6 (some (c ∷ d ∷ [])) = (c == 58) && (d == 58)
any_ipv6 (some (c ∷ d ∷ e ∷ rest)) = false

-- The text that is looked up; `NULL` is not.
abbrev pub text_of : Option Bytes → Bytes
text_of none = []
text_of (some s) = s

module _ (inet_pton : ℕ → Bytes → ℤ × Bytes) where
  -- `init_ipv4` and `init_ipv6`
  unfoldable pub init_ipv4 : Option Bytes → ℕ → ℤ × Address
  init_ipv4 addr port =
      let (rc, host) = inet_pton af_inet (text_of addr) in
      if any_ipv4 addr
      then (pos 1, record { family = af_inet; port = htons port; host = replicate 4 0 })
      else (rc, record { family = af_inet; port = htons port; host = host })

  unfoldable pub init_ipv6 : Option Bytes → ℕ → ℤ × Address
  init_ipv6 addr port =
      let (rc, host) = inet_pton af_inet6 (text_of addr) in
      if any_ipv6 addr
      then (pos 1, record { family = af_inet6; port = htons port; host = replicate 16 0 })
      else (rc, record { family = af_inet6; port = htons port; host = host })

-- `memcpy(sun->sun_path, path, l+1)`
abbrev pub copy_path : Bytes → Outcome (ℤ × Address)
copy_path path = elim (store sun_path 0 (path ++ (0 ∷ []))) [
  | ok m ↦ ok (pos 1, record { family = af_local; port = 0; host = m })
  | fault ↦ fault
  | abort ↦ abort
]

-- `init_local`, of the bytes of the path before its NUL.
unfoldable pub init_local : Option Bytes → Outcome (ℤ × Address)
init_local none = copy_path []
init_local (some path) =
    if ltb 107 (length path)
    then ok (pos 0, record { family = af_local; port = 0; host = sun_path })
    else copy_path path

-- The options of a socket that is not local: `SO_REUSEADDR`, `SO_KEEPALIVE` and `SO_LINGER`, whose
-- failures are not looked at.
unfoldable pub set_options : ℤ → ℕ → Sys (Unit {0})
set_options fd family = if family == af_local then pure tt else do
  _ ← syscall (set_option fd 2 1)
  _ ← syscall (set_option fd 9 1)
  _ ← syscall (set_option fd 13 0)
  pure tt

module _ {W : Type 0} (ev : Ev W) where
  -- `sancus_close2(&self->connect.fd)`
  abbrev pub close_connect : Server W → Sys (Server W)
  close_connect s = do
    _ ← close_fd (ev.fd s.connect)
    pure (record s { connect = ev.with_fd (negsuc 0) s.connect })

  -- What follows a `bind` or a `listen` that fails, with its `errno`.
  unfoldable pub not_bound : ℕ → Server W → Sys (ℤ × Server W)
  not_bound e s = do s' ← close_connect s; _ ← set_errno e; pure (negsuc 0, s')

  -- `bind` and `listen`
  unfoldable pub bind_listen : ℕ → Address → ℕ → Server W → Sys (ℤ × Server W)
  unfolding not_bound
  bind_listen fd sa backlog s = do
    a ← syscall (bind (pos fd) sa)
    elim a [
      | done n ↦ (do
        b ← syscall (listen (pos fd) backlog)
        elim b [ done m ↦ pure (pos 1, s) | fail e ↦ not_bound e s ])
      | fail e ↦ not_bound e s
    ]

  -- `if (settings->pre_bind)`
  abbrev pub prepare : Option (Server W → Sys (Server W)) → Server W → Sys (Server W)
  prepare none s = pure s
  prepare (some pre_bind) s = pre_bind s

  -- `init_tcp`, from the new descriptor on.
  unfoldable pub bind_socket :
      Option (Server W → Sys (Server W)) → Address → ℕ → ℤ → Server W → Sys (ℤ × Server W)
  unfolding bind_listen set_options
  bind_socket pre_bind sa backlog (negsuc n) s = pure (negsuc 0, s)
  bind_socket pre_bind sa backlog (pos fd) s = do
    _ ← set_options (pos fd) sa.family
    s' ←
        prepare pre_bind
          (record s { connect = (ev.init server_connect (pos fd) ev.read_bit s.connect).1 })
    bind_listen fd sa backlog s'

  -- `init_tcp`
  unfoldable pub init_tcp :
      Option (Server W → Sys (Server W)) → Address → Bool → ℕ → Server W → Sys (ℤ × Server W)
  unfolding bind_socket
  init_tcp pre_bind sa cloexec backlog s = do
    fd ← sancus_socket sa.family sock_stream 0 cloexec true
    bind_socket pre_bind sa backlog fd s

  -- `sancus_tcp_server_start`
  unfoldable pub start : Server W → Sys (Server W)
  start s = do
    _ ← assert (not (ev.is_active s.connect))
    pure (record s { connect = (ev.start s.connect).1 })

  -- `sancus_tcp_server_stop`
  unfoldable pub stop : Server W → Server W
  stop s = if ev.is_active s.connect then record s { connect = (ev.stop s.connect).1 } else s

  -- `sancus_tcp_server_close`
  unfoldable pub close : Server W → Sys (Server W)
  close s = do
    _ ← assert (leb_ℤ (pos 0) (ev.fd s.connect))
    _ ← assert (not (ev.is_active s.connect))
    close_connect s

  -- `sancus_tcp_server_is_active`
  abbrev pub is_active : Server W → Bool
  is_active s = ltb_ℤ (pos 0) (ev.fd s.connect) && ev.is_active s.connect

  module _ {A : Type 0} (settings : Settings W A) where
    -- A server on an address, where there is one.
    abbrev pub listen_on : ℤ × Address → Bool → ℕ → Server W → Sys (ℤ × Server W)
    listen_on (rc, sa) cloexec backlog s =
        if eqb_ℤ rc (pos 1) then init_tcp settings.pre_bind sa cloexec backlog s else pure (rc, s)

    -- `sancus_tcp_ipv4_listen`
    unfoldable pub ipv4_listen :
        (ℕ → Bytes → ℤ × Bytes) → Option Bytes → ℕ → Bool → ℕ → Server W → Sys (ℤ × Server W)
    ipv4_listen inet_pton addr port cloexec backlog s =
        listen_on (init_ipv4 inet_pton addr port) cloexec backlog s

    -- `sancus_tcp_ipv6_listen`
    unfoldable pub ipv6_listen :
        (ℕ → Bytes → ℤ × Bytes) → Option Bytes → ℕ → Bool → ℕ → Server W → Sys (ℤ × Server W)
    ipv6_listen inet_pton addr port cloexec backlog s =
        listen_on (init_ipv6 inet_pton addr port) cloexec backlog s

    -- The path is removed first, where it fits.
    unfoldable pub listen_at : Option Bytes → ℤ × Address → Bool → ℕ → Server W → Sys (ℤ × Server W)
    listen_at path (rc, sa) cloexec backlog s =
        if eqb_ℤ rc (pos 1)
        then (syscall (unlink path) >>= λ _. init_tcp settings.pre_bind sa cloexec backlog s)
        else pure (rc, s)

    -- `sancus_tcp_local_listen`
    unfoldable pub local_listen : Option Bytes → Bool → ℕ → Server W → Sys (ℤ × Server W)
    unfolding init_local listen_at
    local_listen path cloexec backlog s = do
      found ← lift (init_local path)
      listen_at path found cloexec backlog s
