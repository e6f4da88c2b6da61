-- ===== src/Socket.antt =====
-- include/sancus/socket.h: sockets, made with the flags that are asked for, and `accept`.
pub mod Leaks
pub mod Path
mod Tests
use sancus_core.Base.{
  ℕ, ◌+◌, ◌-◌, ◌*◌, ◌/◌, ◌%◌, replicate, Bool, true, false, ◌||◌, not, ◌==◌, List, [], ◌∷◌,
  if◌then◌else◌,
}
use sancus_core.Base.Int.{ℤ, pos, negsuc}
use Prim.Native.Nat.{bit_and, bit_or}
use sancus_core.Base.Memory.{Bytes}
use sancus_core.Fd.{Answer, done, fail, eintr}
use sancus_core.Sys.{
  Kernel, Result, returns, waits, aborts, Sys, pure, ◌>>=◌, ◌>>◌, Call, socket, get_flags,
  set_flags, close, accept, Entry, syscall,
}

-- `SOCK_CLOEXEC`, `SOCK_NONBLOCK`, `FD_CLOEXEC` and `O_NONBLOCK`
abbrev pub sock_cloexec : ℕ
sock_cloexec = 0x80000

abbrev pub sock_nonblock : ℕ
sock_nonblock = 0x800

abbrev pub fd_cloexec : ℕ
fd_cloexec = 1

abbrev pub o_nonblock : ℕ
o_nonblock = 0x800

-- `x |= flag` where it is asked for, `x &= ~flag` where not.
abbrev pub put_flag : Bool → ℕ → ℕ → ℕ
put_flag true flag x = bit_or x flag
put_flag false flag x = x - bit_and x flag

abbrev pub add_flag : Bool → ℕ → ℕ → ℕ
add_flag true flag x = bit_or x flag
add_flag false flag x = x

abbrev pub socket_type : ℕ → Bool → Bool → ℕ
socket_type type cloexec nonblock =
    put_flag nonblock sock_nonblock (put_flag cloexec sock_cloexec type)

abbrev pub wanted_flags : Bool → Bool → ℕ → ℕ
wanted_flags cloexec nonblock fl = add_flag nonblock o_nonblock (add_flag cloexec fd_cloexec fl)

-- `socket_failed`
unfoldable pub socket_failed : ℕ → Sys ℤ
socket_failed fd = do _ ← syscall (close (pos fd)); pure (negsuc 0)

-- The flags of the new descriptor, from those that `F_GETFL` told.
unfoldable pub set_wanted : ℕ → ℕ → ℕ → Sys ℤ
unfolding socket_failed
set_wanted fd fl fl2 = if fl == fl2 then pure (pos fd) else do
  a ← syscall (set_flags (pos fd) fl2)
  elim a [ done n ↦ pure (pos fd) | fail e ↦ socket_failed fd ]

unfoldable pub configure : ℕ → Bool → Bool → Sys ℤ
unfolding socket_failed set_wanted
configure fd cloexec nonblock =
    if cloexec || nonblock
    then (do
      a ← syscall (get_flags (pos fd))
      elim a [
        | done fl ↦ set_wanted fd fl (wanted_flags cloexec nonblock fl)
        | fail e ↦ socket_failed fd
      ])
    else socket_failed fd

-- `sancus_socket`
unfoldable pub sancus_socket : ℕ → ℕ → ℕ → Bool → Bool → Sys ℤ
unfolding configure
sancus_socket family type protocol cloexec nonblock = do
  a ← syscall (socket family (socket_type type cloexec nonblock) protocol)
  elim a [ done fd ↦ configure fd cloexec nonblock | fail e ↦ pure (negsuc 0) ]

-- `htons`
abbrev pub htons : ℕ → ℕ
htons port = port % 256 * 256 + port / 256

-- `AF_LOCAL`, `AF_INET`, `AF_INET6` and `SOCK_STREAM`
abbrev pub af_local : ℕ
af_local = 1

abbrev pub af_inet : ℕ
af_inet = 2

abbrev pub af_inet6 : ℕ
af_inet6 = 10

abbrev pub sock_stream : ℕ
sock_stream = 1

-- `sun_path`, zeroed.
abbrev pub sun_path : Bytes
sun_path = replicate 108 0

-- `sancus_accept`
unfoldable pub accept_from : ℤ → List Answer → Kernel → Result ℤ
accept_from fd [] k = waits
accept_from fd (done n ∷ rest) k =
    returns (pos n)
      (record k { answers = rest; log = record { call = accept fd; answer = done n } ∷ k.log })
accept_from fd (fail e ∷ rest) k =
    let k' : Kernel = record {
      answers = rest;
      log = record { call = accept fd; answer = fail e } ∷ k.log;
      errno = e;
    } in
    let again = accept_from fd rest k' in if e == eintr then again else returns (negsuc 0) k'

unfoldable pub sancus_accept : ℤ → Sys ℤ
unfolding accept_from
sancus_accept fd k = accept_from fd k.answers k
