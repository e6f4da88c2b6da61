-- ===== src/Conn/Leaks.antt =====
-- A connection that is made has its descriptor; where none is made, none is left open.
use sancus_core.Base.{
  ℕ, zero, suc, ==_iff, Bool, true, Option, none, some, [], length, arith, ltb, Bool-cases,
  ltb-false→le, ◌≡◌, refl, ap, ◌∙◌, ◌==◌, ◌⊎◌, inl, inr,
}
use Prim.Native.Nat.{bit_or}
use sancus_core.Base.Int.{ℤ, pos, negsuc}
use sancus_core.Base.Memory.{Bytes}
use sancus_core.Fd.{done, fail}
use sancus_core.Sys.{Kernel, Address, connect, close_fd}
use sancus_core.Sys.Rules.{Ensures, >>=-Ensures, call-Ensures}
use sancus_core.Sys.Ledger.{Refused, Made-Refused, is_open, Made, last_attach, Opened}
use sancus_core.Sys.Closing.{Shut, close_fd-Shut, Shut-Refused}
use sancus_core.Ev.{Ev, Keeping, conn_io}
use sancus_core.Socket.{sancus_socket, sock_stream, af_inet, af_inet6}
use sancus_core.Socket.Leaks.{sancus_socket-Made}
use sancus_core.Socket.Path.{path_fits}
use sancus_core.Conn.{
  Conn, connected, inprogress, einprogress, not_connected, connect_socket, connect_to, copy_path,
  init_local, init_tcp, close_io, ipv4_connect, ipv6_connect, local_connect,
}

-- What a function owes that connects `c`: with 1, the watcher has a descriptor that is open, the only
-- one opened, and the state tells how `connect` answered; with 0, nothing was done; with -1, nothing
-- is open that was not, and `errno` is what `connect` left where that was made.
abbrev pub Connects : {W : Type 0} → Ev W → Conn W → Kernel → ℤ × Conn W → Kernel → Type 0
Connects ev c k (pos zero, c') k' = (c' ≡ c) × (k' ≡ k)
Connects ev c k (pos (suc n), c') k' =
    (n ≡ 0)
    × ((fd : ℕ) × (ev.fd c'.io ≡ pos fd) × Opened (pos fd) k.log k'.log)
    × (((m : ℕ) × (last_attach k'.log ≡ some (done m)) × (c'.state ≡ connected))
        ⊎ ((last_attach k'.log ≡ some (fail einprogress)) × (c'.state ≡ inprogress)))
Connects ev c k (negsuc n, c') k' = Refused k.log k'

module _ {W : Type 0} (ev : Ev W) (keeping : Keeping ev) where
  close_io-Shut :
      (c : Conn W) (k : Kernel) → Ensures (λ c' k'. Shut (ev.fd c.io) k k') (close_io ev c k)
  close_io-Shut c k =
      >>=-Ensures _ _ (close_fd (ev.fd c.io) k) _ (close_fd-Shut (ev.fd c.io) k)
        (λ rc k' shut. shut)

  not_connected-Connects :
      (c0 c : Conn W) (k0 k : Kernel) (fd e : ℕ)
      → ev.fd c.io ≡ pos fd
      → Opened (pos fd) k0.log k.log
      → last_attach k.log ≡ some (fail e)
      → Ensures (Connects ev c0 k0) (not_connected ev e c k)
  unfolding not_connected
  not_connected-Connects c0 c k0 k fd e own opened last = elim (Bool-cases (e == einprogress)) [
    | inl h ↦ rw h (
      refl,
      (fd, own, opened),
      inr (last ∙ ap (λ x. some (fail x)) ((==_iff e einprogress).0 h), refl),
    )
    | inr h ↦ rw h (
        >>=-Ensures _ _ (close_io ev c k) _ (close_io-Shut c k)
          (λ c' k' shut. Shut-Refused k0.log k k' fd e (ev.fd c.io) own opened last shut))
  ]

  connect_socket-Connects :
      (sa : Address) (fd : ℤ) (c : Conn W) (k0 k : Kernel)
      → Made k0.log fd k.log
      → Ensures (Connects ev c k0) (connect_socket ev sa fd c k)
  unfolding connect_socket
  connect_socket-Connects sa (negsuc n) c k0 k made = Made-Refused n k0.log k made
  connect_socket-Connects sa (pos fd) c k0 k made =
      let own : ev.fd ((ev.init conn_io (pos fd) (bit_or ev.read_bit ev.write_bit) c.io).1)
          ≡ pos fd =
        keeping.fd-init conn_io (pos fd) (bit_or ev.read_bit ev.write_bit) c.io in
      call-Ensures _ (connect (pos fd) sa) k _
        (λ n k' called. (
          refl,
          (fd, own, λ x. ap (is_open x) (called.0) ∙ made x),
          inl (n, ap last_attach (called.0), refl),
        ))
        (λ e k' called.
          not_connected-Connects c _ k0 k' fd e own (λ x. ap (is_open x) (called.0) ∙ made x)
            (ap last_attach (called.0)))

  pub init_tcp-Connects :
      (sa : Address) (cloexec : Bool) (c : Conn W) (k : Kernel)
      → Ensures (Connects ev c k) (init_tcp ev sa cloexec c k)
  unfolding init_tcp
  init_tcp-Connects sa cloexec c k =
      >>=-Ensures _ _ (sancus_socket sa.family sock_stream 0 cloexec true k) _
        (sancus_socket-Made sa.family sock_stream 0 cloexec true k)
        (λ fd k' made. connect_socket-Connects sa fd c k k' made)

  -- Where there is an address: the result is 1. Where there is none, it is 0.
  pub connect_to-Connects :
      (rc : ℤ) (sa : Address) (cloexec : Bool) (c : Conn W) (k : Kernel)
      → (rc ≡ pos 0) ⊎ (rc ≡ pos 1)
      → Ensures (Connects ev c k) (connect_to ev (rc, sa) cloexec c k)
  connect_to-Connects rc sa cloexec c k (inl h) = rw h (refl, refl)
  connect_to-Connects rc sa cloexec c k (inr h) = rw h (init_tcp-Connects sa cloexec c k)

-- What `inet_pton` answers for the families that it is asked about.
abbrev pub Resolver : (ℕ → Bytes → ℤ × Bytes) → Type 0
Resolver inet_pton =
    (family : ℕ) (addr : Bytes)
    → ((inet_pton family addr).0 ≡ pos 0) ⊎ ((inet_pton family addr).0 ≡ pos 1)

module _ {W : Type 0} (ev : Ev W) (keeping : Keeping ev) where
  local_connect-Connects :
      (path : Option Bytes) (cloexec : Bool) (c : Conn W) (k : Kernel)
      → Ensures (Connects ev c k) (local_connect ev path cloexec c k)
  unfolding local_connect init_local
  local_connect-Connects none cloexec c k =
      rw (copy_path, path_fits [] (omega arith)) (init_tcp-Connects ev keeping _ cloexec c k)
  local_connect-Connects (some path) cloexec c k = elim (Bool-cases (ltb 107 (length path))) [
    | inl h ↦ rw h (refl, refl)
    | inr h ↦
        rw (h, copy_path, path_fits path (ltb-false→le _ _ h))
          (init_tcp-Connects ev keeping _ cloexec c k)
  ]

  -- `sancus_tcp_ipv4_connect`, `sancus_tcp_ipv6_connect` and `sancus_tcp_local_connect`, with any
  -- answers of the kernel, on an event library that keeps the descriptors of its watchers and an
  -- `inet_pton` that answers 0 or 1, fail no assertion, leave no object, and do as `Connects` says:
  -- no descriptor is left open where the result is not 1, and `errno` is that of the failed
  -- `connect`.
  pub connects_lem :
      (inet_pton : ℕ → Bytes → ℤ × Bytes) (addr : Bytes) (path : Option Bytes) (port : ℕ)
      (cloexec : Bool) (c : Conn W) (k : Kernel)
      → Resolver inet_pton
      → Ensures (Connects ev c k) (ipv4_connect ev inet_pton addr port cloexec c k)
        × Ensures (Connects ev c k) (ipv6_connect ev inet_pton addr port cloexec c k)
        × Ensures (Connects ev c k) (local_connect ev path cloexec c k)
  unfolding ipv4_connect ipv6_connect
  connects_lem inet_pton addr path port cloexec c k resolver = (
    connect_to-Connects ev keeping _ _ cloexec c k (resolver af_inet addr),
    connect_to-Connects ev keeping _ _ cloexec c k (resolver af_inet6 addr),
    local_connect-Connects path cloexec c k,
  )
