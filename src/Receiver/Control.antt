-- ===== src/Receiver/Control.antt =====
-- A datagram of one control message closes the receiver.
use sancus_core.Base.{ℕ, suc, ◌≤◌, true, false, Option, some, List, ◌∷◌, ◌≡◌, refl, ap, ◌∙◌, leb}
use sancus_core.Base.Int.{ℤ, pos, negsuc}
use sancus_core.Base.Outcome.{ok}
use sancus_core.Fd.{Answer, done}
use sancus_core.Netlink.Msg.{nlmsg_len, nlmsg_pid, nlmsg_type}
use sancus_core.Sys.{
  Entry, Kernel, Result, returns, waits, aborts, Sys, ◌>>=◌, receive, syscall, answered, close_fd,
}
use sancus_core.Sys.Rules.{Ensures, >>=-Ensures}
use sancus_core.Sys.Ledger.{Closed}
use sancus_core.Sys.Closing.{close_fd-Shut}
use sancus_core.Ev.{Ev, Keeping, has}
use sancus_core.Receiver.{
  World, Settings, Receiver, Delivery, extract, close_watcher, extracted, recvfrom, received,
  on_readable, on_broken, recv_cb,
}
use sancus_core.Receiver.Events.{extract_one}

-- A run whose first part returns.
then_returns :
    {A B : Type 0} (r : Sys A) (f : A → Sys B) (k k' : Kernel) (a : A)
    → r k ≡ returns a k'
    → (r >>= f) k ≡ f a k'
then_returns {A = A} r f k k' a h =
    ap (λ (x : Result A). elim x [ returns b j ↦ f b j | waits ↦ waits | aborts ↦ aborts ]) h

recvfrom-ok :
    (fd : ℤ) (n e : ℕ) (d : Delivery) (rest : List Answer) (log : List Entry)
    → d.truncated ≡ false
    → d.namelen ≡ 12
    → recvfrom fd d (record { answers = done n ∷ rest; log = log; errno = e })
      ≡ returns (pos n) (record {
        answers = rest;
        log = record { call = receive fd; answer = done n } ∷ log;
        errno = e;
      })
unfolding recvfrom syscall answered
recvfrom-ok fd n e d rest log whole name = rw (whole, name) refl

module _ {W : Type 0} (ev : Ev W) (keeping : Keeping ev) {A : Type 0}
    (settings : Settings W A) where
  -- The receiver is closed: its watcher has no descriptor, and the one it had is closed.
  abbrev pub Shuts : World W A → List Entry → Option (World W A) → Kernel → Type 0
  Shuts w log r k =
      (w' : World W A) × (r ≡ some w')
      × (ev.fd w'.receiver.recv_watcher ≡ negsuc 0)
      × Closed (ev.fd w.receiver.recv_watcher) log k.log

  extracted-Shuts :
      (w : World W A) (k : Kernel)
      → Ensures (Shuts w k.log) (extracted ev settings (some (pos 0, w)) k)
  unfolding extracted
  extracted-Shuts w k =
      let io : W = w.receiver.recv_watcher in
      >>=-Ensures _ _ (close_watcher ev w.receiver k) _
        (>>=-Ensures _
          (λ r k'.
            (r ≡ record w.receiver { recv_watcher = ev.with_fd (negsuc 0) io })
            × Closed (ev.fd io) k.log k'.log)
          (close_fd (ev.fd io) k) _ (close_fd-Shut (ev.fd io) k) (λ rc k' shut. (refl, shut.0)))
        (λ r k' h. (
          record w { receiver = r },
          refl,
          ap (λ (q : Receiver W). ev.fd q.recv_watcher) (h.0) ∙ keeping.fd-with_fd (negsuc 0) io,
          h.1,
        ))

  -- A datagram that holds one control message, of 16 to 65532 bytes and for the receiver's port,
  -- closes the receiver, on an event library that keeps the descriptors of its watchers.
  pub recv_cb_control :
      (fuel n type revents e : ℕ) (d : Delivery) (w : World W A) (rest : List Answer)
      (log : List Entry)
      → has revents ev.read_bit ≡ true
      → has revents ev.error_bit ≡ false
      → d.truncated ≡ false
      → d.namelen ≡ 12
      → nlmsg_len d.buffer 0 ≡ ok n
      → nlmsg_type d.buffer 0 ≡ ok type
      → nlmsg_pid d.buffer 0 ≡ ok w.receiver.portid
      → 16 ≤ n
      → n ≤ 65532
      → leb 16 type ≡ false
      → Ensures (Shuts w log) (
          recv_cb ev settings
            (suc (suc fuel))
            d
            revents
            w
            (record { answers = done n ∷ rest; log = log; errno = e }))
  unfolding recv_cb on_readable on_broken received
  recv_cb_control fuel n type revents e d w rest log readable calm whole name len_is type_is pid_is
        least most control =
      >>=-Ensures (Shuts w log) (Shuts w log)
        (on_readable ev settings (suc (suc fuel)) d revents w k0) _ (rw went (extracted-Shuts w k1))
        (λ r k' shut. let (w', is, own, closed) = shut in rw (is, calm) (w', refl, own, closed))
    where
      k1 : Kernel
      k1 = record {
        answers = rest;
        log = record { call = receive (ev.fd w.receiver.recv_watcher); answer = done n } ∷ log;
        errno = e;
      }

      k0 : Kernel
      k0 = record { answers = done n ∷ rest; log = log; errno = e }

      went :
          on_readable ev settings (suc (suc fuel)) d revents w k0
          ≡ extracted ev settings (some (pos 0, w)) k1
      went =
          let f : ℤ → Sys (Option (World W A)) =
            λ ret. received ev settings (suc (suc fuel)) d ret w in
          let asked : on_readable ev settings (suc (suc fuel)) d revents w k0
              ≡ (recvfrom (ev.fd w.receiver.recv_watcher) d >>= f) k0 =
            rw readable refl in
          asked
          ∙ then_returns (recvfrom (ev.fd w.receiver.recv_watcher) d) f k0 k1 (pos n)
              (recvfrom-ok (ev.fd w.receiver.recv_watcher) n e d rest log whole name)
          ∙ then_returns (extract settings (suc (suc fuel)) d.buffer n w) (extracted ev settings) k1
              k1 (some (pos 0, w))
              (extract_one settings d.buffer n type w len_is type_is pid_is least most fuel k1
                ∙ rw control refl)
