-- ===== src/Conn.antt =====
-- src/sancus/tcp_conn.c and include/sancus/tcp_conn.h: connections. The event library is an `Ev`, the
-- application the callbacks of its settings, which may make calls and change the connection; the
-- resolver of addresses, `inet_pton`, is an argument.
pub mod Leaks
pub mod Story
pub mod Life
mod Tests
use sancus_core.Base.{
  ℕ, zero, suc, ◌+◌, Bool, true, false, not, Option, none, some, List, [], ◌∷◌, ◌++◌, ltb, leb,
  ◌==◌, if◌then◌else◌, length,
}
use Prim.Native.Nat.{bit_or}
use sancus_core.Base.Int.{ℤ, pos, negsuc, leb_ℤ, eqb_ℤ}
use sancus_core.Base.Memory.{Bytes, store}
use sancus_core.Base.Outcome.{Outcome, ok, fault, abort}
use sancus_core.Fd.{Answer, done, fail}
use sancus_core.Time.{Timespec, is_zero}
use sancus_core.Sys.{
  Kernel, Result, returns, waits, aborts, Sys, pure, ◌>>=◌, ◌>>◌, assert, set_errno, get_errno,
  lift, Address, Call, connect, get_error, syscall, close_fd,
}
use sancus_core.Ev.{Ev, Loop, has, Handler, conn_io}
use sancus_core.Socket.{sancus_socket, htons, af_local, af_inet, af_inet6, sock_stream, sun_path}

-- `enum sancus_tcp_conn_error`
pub data Error : Type 0 where
  watcher_error : Error
  connect_error : Error

-- `enum sancus_tcp_conn_state`
pub data State : Type 0 where
  inprogress : State
  connected : State
  running : State
  failed : State

-- `struct sancus_tcp_conn`, less the pointer to its settings.
pub record Conn (W : Type 0) : Type 0 where
  pub io : W
  pub state : State
  pub last_activity : Timespec

-- The connection, the loop and what the application keeps.
pub record World (W : Type 0) (A : Type 0) : Type 0 where
  pub conn : Conn W
  pub loop : Loop
  pub app : A

-- `struct sancus_tcp_conn_settings`
pub record Settings (W : Type 0) (A : Type 0) : Type 0 where
  pub on_read : World W A → Sys (World W A)
  pub on_connect : World W A → Sys (World W A)
  pub on_error : Error → World W A → Sys (World W A)

module _ {W : Type 0} {A : Type 0} where
  -- `self->state = s`
  abbrev pub set_state : State → World W A → World W A
  set_state s w = record w { conn = record w.conn { state = s } }

  -- `sancus_tcp_conn_touch`
  abbrev pub touch : World W A → World W A
  touch w = record w { conn = record w.conn { last_activity = w.loop.now } }

  -- The connection's watcher, put in the place of another.
  abbrev pub set_io : W → World W A → World W A
  set_io io w = record w { conn = record w.conn { io = io } }

module _ {W : Type 0} (ev : Ev W) where
  -- Reads are watched from now on.
  abbrev pub watch_reads : W → W
  watch_reads io =
      let stopped : W = (ev.stop io).1 in
      (ev.start ((ev.init conn_io (ev.fd io) ev.read_bit stopped).1)).1

module _ {W : Type 0} (ev : Ev W) {A : Type 0} (settings : Settings W A) where
  -- From `connect_done` on.
  unfoldable pub connect_done : World W A → Sys (World W A)
  connect_done w = do
    w' ← settings.on_connect (set_io (watch_reads ev w.conn.io) w)
    pure (touch (set_state running w'))

  -- "might want to retry"
  unfoldable pub refused : World W A → Sys (World W A)
  refused w = settings.on_error connect_error (set_state failed w)

  -- A connection in progress that is readable: has it failed?
  unfoldable pub settle : World W A → Sys (World W A)
  unfolding connect_done refused
  settle w = do
    a ← syscall (get_error (ev.fd w.conn.io))
    elim a [
      | done error ↦ if error == 0 then connect_done w else (set_errno error >> refused w)
      | fail e ↦ refused w
    ]

  -- The `switch` on the state.
  unfoldable pub dispatch : State → ℕ → World W A → Sys (World W A)
  unfolding connect_done settle
  dispatch inprogress revents w =
      assert (has revents ev.write_bit)
      >> (if has revents ev.read_bit then settle w else connect_done w)
  dispatch connected revents w = assert (has revents ev.write_bit) >> connect_done w
  dispatch running revents w =
      if has revents ev.read_bit then (settings.on_read w >>= λ w'. pure (touch w')) else pure w
  dispatch failed revents w = assert false >> pure w

  -- `io_cb`
  unfoldable pub io_cb : ℕ → World W A → Sys (World W A)
  unfolding dispatch
  io_cb revents w =
      if has revents ev.error_bit
      then settings.on_error watcher_error w
      else dispatch w.conn.state revents w

-- `EINPROGRESS`
abbrev pub einprogress : ℕ
einprogress = 115

module _ (inet_pton : ℕ → Bytes → ℤ × Bytes) where
  -- `init_ipv4` and `init_ipv6`: the result of `inet_pton`, and the address.
  abbrev pub init_ipv4 : Bytes → ℕ → ℤ × Address
  init_ipv4 addr port =
      let (rc, host) = inet_pton af_inet addr in
      (rc, record { family = af_inet; port = htons port; host = host })

  abbrev pub init_ipv6 : Bytes → ℕ → ℤ × Address
  init_ipv6 addr port =
      let (rc, host) = inet_pton af_inet6 addr in
      (rc, record { family = af_inet6; port = htons port; host = host })

-- `memcpy(sun->sun_path, path, l+1)`
abbrev pub copy_path : Bytes → Outcome (ℤ × Address)
copy_path path = elim (store sun_path 0 (path ++ (0 ∷ []))) [
  | ok m ↦ ok (pos 1, record { family = af_local; port = 0; host = m })
  | fault ↦ fault
  | abort ↦ abort
]

-- `init_local`, of the bytes of the path before its NUL.
unfoldable pub init_local : Option Bytes → Outcome (ℤ × Address)
init_local none = copy_path []
init_local (some path) =
    if ltb 107 (length path)
    then ok (pos 0, record { family = af_local; port = 0; host = sun_path })
    else copy_path path

module _ {W : Type 0} (ev : Ev W) where
  -- `sancus_close2(&self->io.fd)`
  abbrev pub close_io : Conn W → Sys (Conn W)
  close_io c = do _ ← close_fd (ev.fd c.io); pure (record c { io = ev.with_fd (negsuc 0) c.io })

  -- What follows a `connect` that fails, with its `errno`.
  unfoldable pub not_connected : ℕ → Conn W → Sys (ℤ × Conn W)
  not_connected e c =
      if e == einprogress
      then pure (pos 1, record c { state = inprogress })
      else do c' ← close_io c; _ ← set_errno e; pure (negsuc 0, c')

  -- `init_tcp`, from the new descriptor on.
  unfoldable pub connect_socket : Address → ℤ → Conn W → Sys (ℤ × Conn W)
  unfolding not_connected
  connect_socket sa (negsuc n) c = pure (negsuc 0, c)
  connect_socket sa (pos fd) c =
      let watched : Conn W = record c {
        io = (ev.init conn_io (pos fd) (bit_or ev.read_bit ev.write_bit) c.io).1;
      } in
      (do
        a ← syscall (connect (pos fd) sa)
        elim a [
          | done n ↦ pure (pos 1, record watched { state = connected })
          | fail e ↦ not_connected e watched
        ])

  -- `init_tcp`
  unfoldable pub init_tcp : Address → Bool → Conn W → Sys (ℤ × Conn W)
  unfolding connect_socket
  init_tcp sa cloexec c = do
    fd ← sancus_socket sa.family sock_stream 0 cloexec true
    connect_socket sa fd c

  -- A connection to an address, where there is one.
  abbrev pub connect_to : ℤ × Address → Bool → Conn W → Sys (ℤ × Conn W)
  connect_to (rc, sa) cloexec c = if eqb_ℤ rc (pos 1) then init_tcp sa cloexec c else pure (rc, c)

  module _ (inet_pton : ℕ → Bytes → ℤ × Bytes) where
    -- `sancus_tcp_ipv4_connect`
    unfoldable pub ipv4_connect : Bytes → ℕ → Bool → Conn W → Sys (ℤ × Conn W)
    ipv4_connect addr port cloexec c = connect_to (init_ipv4 inet_pton addr port) cloexec c

    -- `sancus_tcp_ipv6_connect`
    unfoldable pub ipv6_connect : Bytes → ℕ → Bool → Conn W → Sys (ℤ × Conn W)
    ipv6_connect addr port cloexec c = connect_to (init_ipv6 inet_pton addr port) cloexec c

  -- `sancus_tcp_local_connect`
  unfoldable pub local_connect : Option Bytes → Bool → Conn W → Sys (ℤ × Conn W)
  unfolding init_local
  local_connect path cloexec c = do found ← lift (init_local path); connect_to found cloexec c

  -- `sancus_tcp_conn_start`
  unfoldable pub start : Loop → Conn W → Conn W
  start loop c =
      let started : Conn W = record c { io = (ev.start c.io).1 } in
      if ev.is_active c.io
      then c
      else if is_zero c.last_activity
      then record started { last_activity = loop.now }
      else started

  -- `sancus_tcp_conn_stop`
  unfoldable pub stop : Conn W → Conn W
  stop c = if ev.is_active c.io then record c { io = (ev.stop c.io).1 } else c

  -- `sancus_tcp_conn_close`
  unfoldable pub close : Conn W → Sys (Conn W)
  close c = do
    _ ← assert (leb_ℤ (pos 0) (ev.fd c.io))
    _ ← assert (not (ev.is_active c.io))
    close_io c
