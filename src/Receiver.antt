-- ===== src/Receiver.antt =====
-- src/netlink/netlink_io.c, and the receiver of include/sancus/netlink.h. The event library is an
-- `Ev`, the application the callbacks of its settings; what `recvmsg` stores is an argument. The loop
-- over the messages runs on fuel, and is `none` where that ends.
pub mod Messages
pub mod Listen
pub mod Events
pub mod Control
pub mod Life
mod Tests
use sancus_core.Base.{
  ℕ, zero, suc, Bool, true, false, not, ◌&&◌, Option, none, some, leb, ◌==◌, if◌then◌else◌,
}
use sancus_core.Base.Int.{ℤ, pos, negsuc, leb_ℤ, ltb_ℤ, eqb_ℤ}
use sancus_core.Base.Memory.{Bytes}
use sancus_core.Fd.{Answer, done, fail}
use sancus_core.Time.{to_int}
use sancus_core.Netlink.Msg.{msg_ok, msg_next, portid_ok, nlmsg_type}
use sancus_core.Netlink.Wire.{to_le}
use sancus_core.Sys.{
  Kernel, Result, returns, waits, aborts, Sys, pure, ◌>>=◌, ◌>>◌, assert, set_errno, lift, Address,
  Call, bind, receive, syscall, close_fd,
}
use sancus_core.Ev.{Ev, Loop, has, Handler, netlink_recv}
use sancus_core.Socket.{sancus_socket}

-- `enum sancus_nl_receiver_error`
pub data Error : Type 0 where
  watcher_error : Error
  recvfrom_error : Error

-- `struct sancus_nl_receiver`, less the pointer to its settings; the port is the `unsigned` that
-- `portid` converts to.
pub record Receiver (W : Type 0) : Type 0 where
  pub recv_watcher : W
  pub portid : ℕ

-- The receiver, the loop and what the application keeps.
pub record World (W : Type 0) (A : Type 0) : Type 0 where
  pub receiver : Receiver W
  pub loop : Loop
  pub app : A

-- `struct sancus_nl_receiver_settings`; a message is a place in the buffer.
pub record Settings (W : Type 0) (A : Type 0) : Type 0 where
  pub on_message : Bytes → ℕ → World W A → Sys (Bool × World W A)
  pub on_error : Error → World W A → Sys (World W A)

-- What `recvmsg` stores where it succeeds: `msg_flags & MSG_TRUNC`, `msg_namelen`, and the buffer.
pub record Delivery : Type 0 where
  pub truncated : Bool
  pub namelen : ℕ
  pub buffer : Bytes

-- `ESRCH`, `ENOSPC` and `EINVAL`
abbrev pub esrch : ℕ
esrch = 3

abbrev pub enospc : ℕ
enospc = 28

abbrev pub einval : ℕ
einval = 22

-- `sancus_nl_recvfrom`
unfoldable pub recvfrom : ℤ → Delivery → Sys ℤ
recvfrom fd d = do
  a ← syscall (receive fd)
  elim a [
    | fail e ↦ pure (negsuc 0)
    | done n ↦
        if d.truncated
        then (set_errno enospc >> pure (negsuc 0))
        else if d.namelen == 12
        then pure (pos n)
        else (set_errno einval >> pure (negsuc 0))
  ]

module _ {W : Type 0} {A : Type 0} (settings : Settings W A) where
  -- The loop of `extract_netlink_message`, from the message at `off` on; `ret` is its result so far.
  unfoldable pub extract_from : ℕ → Bytes → ℕ → ℤ → ℤ → World W A → Sys (Option (ℤ × World W A))
  extract_from zero m off len ret w = pure none
  extract_from (suc fuel) m off len ret w =
      let next : ℤ → World W A → Sys (Option (ℤ × World W A)) =
        λ ret' w'. lift (msg_next m off len) >>= λ p. extract_from fuel m (p.0) (p.1) ret' w' in
      lift (msg_ok m off len) >>= λ good.
      if not good
      then pure (some (ret, w))
      else (lift (portid_ok m off w.receiver.portid) >>= λ mine.
          if not mine
          then (set_errno esrch >> pure (some (negsuc 0, w)))
          else (lift (nlmsg_type m off) >>= λ type.
              if leb 16 type
              then (settings.on_message m off w >>= λ r.
                  if r.0 then next (pos 1) (r.1) else pure (some (pos 0, r.1)))
              else next ret w))

  -- `extract_netlink_message`, whose count of the bytes left is an `int`.
  unfoldable pub extract : ℕ → Bytes → ℕ → World W A → Sys (Option (ℤ × World W A))
  unfolding extract_from
  extract fuel m recvbytes w = extract_from fuel m 0 (to_int (pos recvbytes)) (pos 0) w

module _ {W : Type 0} (ev : Ev W) where
  -- `sancus_close2(&self->recv_watcher.fd)`
  abbrev pub close_watcher : Receiver W → Sys (Receiver W)
  close_watcher r = do
    _ ← close_fd (ev.fd r.recv_watcher)
    pure (record r { recv_watcher = ev.with_fd (negsuc 0) r.recv_watcher })

  -- `sancus_nl_receiver_start`
  unfoldable pub start : Receiver W → Sys (Receiver W)
  start r = do
    _ ← assert (not (ev.is_active r.recv_watcher))
    pure (record r { recv_watcher = (ev.start r.recv_watcher).1 })

  -- `sancus_nl_receiver_stop`
  unfoldable pub stop : Receiver W → Receiver W
  stop r =
      if ev.is_active r.recv_watcher
      then record r { recv_watcher = (ev.stop r.recv_watcher).1 }
      else r

  -- `sancus_nl_receiver_close`
  unfoldable pub close : Receiver W → Sys (Receiver W)
  close r = do
    _ ← assert (leb_ℤ (pos 0) (ev.fd r.recv_watcher))
    _ ← assert (not (ev.is_active r.recv_watcher))
    close_watcher r

  -- `sancus_nl_receiver_is_active`
  abbrev pub is_active : Receiver W → Bool
  is_active r = ltb_ℤ (pos 0) (ev.fd r.recv_watcher) && ev.is_active r.recv_watcher

  module _ {A : Type 0} (settings : Settings W A) where
    -- What becomes of a result of `extract_netlink_message`.
    unfoldable pub extracted : Option (ℤ × World W A) → Sys (Option (World W A))
    extracted none = pure none
    extracted (some (ret, w)) =
        if eqb_ℤ ret (pos 0)
        then (close_watcher w.receiver >>= λ r. pure (some (record w { receiver = r })))
        else pure (some w)

    -- What becomes of a result of `sancus_nl_recvfrom`.
    unfoldable pub received : ℕ → Delivery → ℤ → World W A → Sys (Option (World W A))
    unfolding extracted
    received fuel d (negsuc n) w = do w' ← settings.on_error recvfrom_error w; pure (some w')
    received fuel d (pos n) w = do r ← extract settings fuel d.buffer n w; extracted r

    -- The part of `recv_cb` on `SANCUS_EV_READ`.
    unfoldable pub on_readable : ℕ → Delivery → ℕ → World W A → Sys (Option (World W A))
    unfolding recvfrom received
    on_readable fuel d revents w =
        if has revents ev.read_bit
        then (recvfrom (ev.fd w.receiver.recv_watcher) d >>= λ ret. received fuel d ret w)
        else pure (some w)

    -- The part on `SANCUS_EV_ERROR`.
    unfoldable pub on_broken : ℕ → Option (World W A) → Sys (Option (World W A))
    unfolding close stop
    on_broken revents none = pure none
    on_broken revents (some w) =
        if has revents ev.error_bit
        then (close (stop w.receiver) >>= λ r.
            settings.on_error watcher_error (record w { receiver = r }) >>= λ w'. pure (some w'))
        else pure (some w)

    -- `recv_cb`
    unfoldable pub recv_cb : ℕ → Delivery → ℕ → World W A → Sys (Option (World W A))
    unfolding on_readable on_broken
    recv_cb fuel d revents w = do r ← on_readable fuel d revents w; on_broken revents r

  -- From the new descriptor on, with the address that `groups` and `portid` give.
  unfoldable pub bind_receiver : Address → ℕ → ℤ → Receiver W → Sys (ℤ × Receiver W)
  bind_receiver sa portid (negsuc n) r = pure (negsuc 0, r)
  bind_receiver sa portid (pos fd) r =
      let watched : Receiver W = record {
        recv_watcher = (ev.init netlink_recv (pos fd) ev.read_bit r.recv_watcher).1;
        portid = portid;
      } in
      (do
        a ← syscall (bind (pos fd) sa)
        elim a [
          | done n ↦ pure (pos 1, watched)
          | fail e ↦ (close_watcher watched >>= λ r'. set_errno e >> pure (negsuc 0, r'))
        ])

  -- `sancus_nl_receiver_listen`; `AF_NETLINK` is 16 and `SOCK_RAW` 3. The port of an address is
  -- `nl_pid` here, and its bytes are `nl_groups`.
  unfoldable pub nl_listen : ℕ → ℕ → ℕ → Receiver W → Sys (ℤ × Receiver W)
  unfolding bind_receiver
  nl_listen bus groups portid r = do
    fd ← sancus_socket 16 3 bus false true
    bind_receiver (record { family = 16; port = portid; host = to_le 4 groups }) portid fd r
