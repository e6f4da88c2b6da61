-- ===== src/Receiver/Listen.antt =====
-- A receiver that listens has its descriptor; where none does, none is left open.
use sancus_core.Base.{ℕ, true, false, List, ◌≡◌, refl, ap, ◌∙◌}
use sancus_core.Base.Int.{ℤ, pos, negsuc}
use sancus_core.Sys.{Kernel, Address, bind, Entry, close_fd}
use sancus_core.Sys.Rules.{Ensures, >>=-Ensures, call-Ensures}
use sancus_core.Sys.Ledger.{Refused, Made-Refused, is_open, Made, last_attach, Opened}
use sancus_core.Sys.Closing.{Shut, close_fd-Shut, Shut-Refused}
use sancus_core.Ev.{Ev, Keeping, netlink_recv}
use sancus_core.Socket.{sancus_socket}
use sancus_core.Socket.Leaks.{sancus_socket-Made}
use sancus_core.Receiver.{Receiver, bind_receiver, nl_listen, close_watcher}

-- With a result of 0 or more, that is 1: the watcher has a descriptor that is open, the only one
-- opened, and the port is set. With -1, nothing is open that was not, and `errno` is what `bind`
-- left where it was made.
abbrev pub Receives : {W : Type 0} → Ev W → ℕ → List Entry → ℤ × Receiver W → Kernel → Type 0
Receives ev portid before (pos n, r) k' =
    (n ≡ 1)
    × ((fd : ℕ) × (ev.fd r.recv_watcher ≡ pos fd) × Opened (pos fd) before k'.log)
    × (r.portid ≡ portid)
Receives ev portid before (negsuc n, r) k' = Refused before k'

module _ {W : Type 0} (ev : Ev W) (keeping : Keeping ev) where
  close_watcher-Shut :
      (r : Receiver W) (k : Kernel)
      → Ensures (λ r' k'. Shut (ev.fd r.recv_watcher) k k') (close_watcher ev r k)
  close_watcher-Shut r k =
      >>=-Ensures _ _ (close_fd (ev.fd r.recv_watcher) k) _ (close_fd-Shut (ev.fd r.recv_watcher) k)
        (λ rc k' shut. shut)

  bind_receiver-Receives :
      (sa : Address) (portid : ℕ) (fd : ℤ) (r : Receiver W) (before : List Entry) (k : Kernel)
      → Made before fd k.log
      → Ensures (Receives ev portid before) (bind_receiver ev sa portid fd r k)
  unfolding bind_receiver
  bind_receiver-Receives sa portid (negsuc n) r before k made = Made-Refused n before k made
  bind_receiver-Receives sa portid (pos fd) r before k made =
      let own : ev.fd ((ev.init netlink_recv (pos fd) ev.read_bit r.recv_watcher).1) ≡ pos fd =
        keeping.fd-init netlink_recv (pos fd) ev.read_bit r.recv_watcher in
      call-Ensures _ (bind (pos fd) sa) k _
        (λ n k' called. (refl, (fd, own, λ x. ap (is_open x) (called.0) ∙ made x), refl))
        (λ e k' called.
          >>=-Ensures _ _ (close_watcher ev _ k') _ (close_watcher-Shut _ k') (λ r' k'' shut.
            Shut-Refused before k' k'' fd e _ own (λ x. ap (is_open x) (called.0) ∙ made x)
              (ap last_attach (called.0)) shut))

  pub nl_listen_lem :
      (bus groups portid : ℕ) (r : Receiver W) (k : Kernel)
      → Ensures (Receives ev portid k.log) (nl_listen ev bus groups portid r k)
  unfolding nl_listen
  nl_listen_lem bus groups portid r k =
      >>=-Ensures _ _ (sancus_socket 16 3 bus false true k) _
        (sancus_socket-Made 16 3 bus false true k)
        (λ fd k' made. bind_receiver-Receives _ portid fd r k.log k' made)
