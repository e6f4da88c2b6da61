-- ===== src/Receiver/Life.antt =====
-- Receivers from listening to closing, and what an error on their descriptor comes to.
use sancus_core.Base.{
  ℕ, List, Option, some, true, false, not, ◌&&◌, if◌then◌else◌, ◌≡◌, refl, sym, ap, ◌∙◌, inl, inr,
  Bool-cases, arith, le→leb,
}
use sancus_core.Base.Int.{ℤ, pos, negsuc, leb_ℤ, eqb_ℤ}
use sancus_core.Sys.{Kernel, Address, Sys, Entry, aborts, pure, ◌>>=◌, bind, close_fd}
use sancus_core.Sys.Rules.{
  Ensures, Partially, Ensures-map, Ensures-also, >>=-Ensures, >>=-Partially, nothing-Partially,
  call-Partially,
}
use sancus_core.Sys.Closing.{close_fd-Shut}
use sancus_core.Sys.Ledger.{is_open, Opened, Same, NoneOpened, Closed-NoneOpened}
use sancus_core.Ev.{Ev, Keeping, has, netlink_recv}
use sancus_core.Ev.Owned.{Stopping, Starting, Released, Owner, close-stop_owner}
use sancus_core.Socket.{sancus_socket}
use sancus_core.Receiver.{
  Receiver, World, Settings, Delivery, watcher_error, start, stop, close, close_watcher,
  bind_receiver, nl_listen, on_readable, on_broken, recv_cb,
}
use sancus_core.Receiver.Listen.{Receives, nl_listen_lem}

module _ {W : Type 0} (ev : Ev W) where
  -- A receiver that is made to listen, and where it does, is started, and then meets its end.
  unfoldable pub session :
      {A : Type 0}
      → Sys (ℤ × Receiver W)
      → (World W A → Sys (Option (World W A)))
      → World W A
      → Sys (Option (World W A))
  session listening ending w = listening >>= λ r.
      if eqb_ℤ (r.0) (pos 1)
      then (start ev (r.1) >>= λ s. ending (record w { receiver = s }))
      else pure (some (record w { receiver = r.1 }))

  -- The application ends it.
  unfoldable pub shut_down : {A : Type 0} → World W A → Sys (Option (World W A))
  shut_down w = close ev (stop ev w.receiver) >>= λ r. pure (some (record w { receiver = r }))

  -- It is ended, and no descriptor is open that was not.
  abbrev pub Gone : {A : Type 0} → List Entry → Option (World W A) → Kernel → Type 0
  Gone {A = A} before r k = (w : World W A) × (r ≡ some w) × NoneOpened before k.log

  -- A receiver that listens is not active yet.
  abbrev pub Idle : ℤ × Receiver W → Kernel → Type 0
  Idle (rc, r) k = eqb_ℤ rc (pos 1) ≡ true → ev.is_active r.recv_watcher ≡ false

  bind_receiver-Idle :
      Starting ev
      → (sa : Address) (portid : ℕ) (fd : ℤ) (r : Receiver W) (k : Kernel)
      → Partially Idle (bind_receiver ev sa portid fd r k)
  unfolding bind_receiver
  bind_receiver-Idle starting sa portid (negsuc n) r k = λ h. absurd cc
  bind_receiver-Idle starting sa portid (pos fd) r k =
      call-Partially Idle (bind (pos fd) sa) k _
        (λ n k' h. starting.is_active-init netlink_recv (pos fd) ev.read_bit r.recv_watcher)
        (λ e k'.
          >>=-Partially _ Idle (close_watcher ev _ k') _ (nothing-Partially _)
            (λ r' k'' _ h. absurd cc))

  nl_listen-Idle :
      Starting ev
      → (bus groups portid : ℕ) (r : Receiver W) (k : Kernel)
      → Partially Idle (nl_listen ev bus groups portid r k)
  unfolding nl_listen
  nl_listen-Idle starting bus groups portid r k =
      >>=-Partially _ Idle (sancus_socket 16 3 bus false true k) _ (nothing-Partially _)
        (λ fd k' _. bind_receiver-Idle starting _ portid fd r k')

module _ {W : Type 0} (ev : Ev W) (keeping : Keeping ev) where
  io-stop :
      (r : Receiver W)
      → (stop ev r).recv_watcher
        ≡ (if ev.is_active r.recv_watcher then (ev.stop r.recv_watcher).1 else r.recv_watcher)
  unfolding stop
  io-stop r = elim (Bool-cases (ev.is_active r.recv_watcher)) [
    | inl h ↦ rw h refl
    | inr h ↦ rw h refl
  ]

  close-Released :
      (r : Receiver W) (k : Kernel)
      → leb_ℤ (pos 0) (ev.fd r.recv_watcher) ≡ true
      → ev.is_active r.recv_watcher ≡ false
      → Ensures (Released ev (λ r'. r'.recv_watcher) (ev.fd r.recv_watcher) k) (close ev r k)
  unfolding close
  close-Released r k own idle =
      rw (own, idle)
        (>>=-Ensures _ _ (close_fd (ev.fd r.recv_watcher) k) _
          (close_fd-Shut (ev.fd r.recv_watcher) k)
          (λ rc k' shut. (keeping.fd-with_fd (negsuc 0) r.recv_watcher, shut.0)))

  close-aborts :
      (r : Receiver W) (k : Kernel) → ev.fd r.recv_watcher ≡ negsuc 0 → close ev r k ≡ aborts
  unfolding close
  close-aborts r k gone = rw gone refl

  abbrev owner : Owner ev (Receiver W)
  owner = record {
    io = λ r. r.recv_watcher;
    stop = stop ev;
    close = close ev;
    io-stop = io-stop;
    close-Released = close-Released;
    close-aborts = close-aborts;
  }

  -- What is known of a receiver that listens, and is started.
  abbrev Holds : List Entry → Receiver W → Kernel → Type 0
  Holds before r k = (fd : ℕ) × (ev.fd r.recv_watcher ≡ pos fd) × Opened (pos fd) before k.log

  module _ (stopping : Stopping ev) where
    stopped-NoneOpened :
        (before : List Entry) (r : Receiver W) (k : Kernel)
        → Holds before r k
        → Ensures
            (λ r' k'. (ev.fd r'.recv_watcher ≡ negsuc 0) × NoneOpened before k'.log)
            (close ev (stop ev r) k)
    stopped-NoneOpened before r k (fd, own, opened) =
        Ensures-map _ _ (close ev (stop ev r) k)
          (close-stop_owner ev stopping owner r k
            (ap (leb_ℤ (pos 0)) own ∙ le→leb 0 fd (omega arith)))
          (λ r' k' gone. (
            gone.0.0,
            Closed-NoneOpened (pos fd) before k.log k'.log opened
                (λ x. (gone.0.1) x ∙ ap (λ f. not (eqb_ℤ x f) && is_open x k.log) own),
          ))

  module _ (stopping : Stopping ev) (starting : Starting ev) {A : Type 0} where
    session-Gone :
        (bus groups portid : ℕ) (ending : World W A → Sys (Option (World W A))) (w : World W A)
        (k : Kernel)
        → ((w' : World W A) (k' : Kernel)
            → Holds k.log w'.receiver k'
            → Ensures (Gone ev k.log) (ending w' k'))
        → Ensures
            (Gone ev k.log)
            (session ev (nl_listen ev bus groups portid w.receiver) ending w k)
    unfolding session start
    session-Gone bus groups portid ending w k ends =
        let receiver = w.receiver in
        >>=-Ensures (λ r k'. Receives ev portid k.log r k' × Idle ev r k') _
          (nl_listen ev bus groups portid receiver k) _
          (Ensures-also _ _ (nl_listen ev bus groups portid receiver k)
            (nl_listen_lem ev keeping bus groups portid receiver k)
            (nl_listen-Idle ev starting bus groups portid receiver k))
          (λ r k' known. met (r.0) (r.1) k' (known.0) (known.1))
      where
        met :
            (rc : ℤ) (r : Receiver W) (k' : Kernel)
            → Receives ev portid k.log (rc, r) k'
            → Idle ev (rc, r) k'
            → Ensures (Gone ev k.log) (
                (if eqb_ℤ rc (pos 1)
                    then (start ev r >>= λ s. ending (record w { receiver = s }))
                    else pure (some (record w { receiver = r })))
                  k')
        met (negsuc n) r k' refused idle = (record w { receiver = r }, refl, refused.0)
        met (pos n) r k' (one, (fd, own, opened), port) idle =
            rw (one, idle (rw one refl))
              (ends
                (record w { receiver = record r { recv_watcher = (ev.start r.recv_watcher).1 } }) k'
                (fd, starting.fd-start r.recv_watcher ∙ own, opened))

    shut_down-Gone :
        (before : List Entry) (w : World W A) (k : Kernel)
        → Holds before w.receiver k
        → Ensures (Gone ev before) (shut_down ev w k)
    unfolding shut_down
    shut_down-Gone before w k holds =
        >>=-Ensures _ _ (close ev (stop ev w.receiver) k) _
          (stopped-NoneOpened stopping before w.receiver k holds)
          (λ r k' gone. (record w { receiver = r }, refl, gone.1))

    recv_cb-Gone :
        (settings : Settings W A) (fuel : ℕ) (d : Delivery) (revents : ℕ) (before : List Entry)
        (w : World W A) (k : Kernel)
        → has revents ev.read_bit ≡ false
        → has revents ev.error_bit ≡ true
        → ((w' : World W A) (k' : Kernel)
            → Ensures (λ w'' k''. Same k'.log k''.log) (settings.on_error watcher_error w' k'))
        → Holds before w.receiver k
        → Ensures (Gone ev before) (recv_cb ev settings fuel d revents w k)
    unfolding recv_cb on_readable on_broken
    recv_cb-Gone settings fuel d revents before w k calm broken tells holds =
        rw (calm, broken)
          (>>=-Ensures _ _ (close ev (stop ev w.receiver) k) _
            (stopped-NoneOpened stopping before w.receiver k holds)
            (λ r k' gone.
              >>=-Ensures _ _ (settings.on_error watcher_error (record w { receiver = r }) k') _
                (tells (record w { receiver = r }) k')
                (λ w' k'' same. (w', refl, λ x h. (gone.1) x (sym (same x) ∙ h)))))

    -- A receiver is made to listen; where that returns 1, it is started, and then either stopped and
    -- closed by the application, or an event reports an error on it, and nothing to read. Whatever the
    -- kernel answers, no assertion fails on the way, the event is handled within any fuel, and no
    -- descriptor is left open that was not before. `on_error` fails no assertion and opens and closes
    -- nothing, and the event library keeps descriptors and has watchers that are active neither when
    -- set up nor when stopped.
    pub receiver_session :
        (settings : Settings W A) (fuel : ℕ) (d : Delivery) (revents bus groups portid : ℕ)
        (w : World W A) (k : Kernel)
        → has revents ev.read_bit ≡ false
        → has revents ev.error_bit ≡ true
        → ((w' : World W A) (k' : Kernel)
            → Ensures (λ w'' k''. Same k'.log k''.log) (settings.on_error watcher_error w' k'))
        → Ensures
            (Gone ev k.log)
            (session ev (nl_listen ev bus groups portid w.receiver) (shut_down ev) w k)
          × Ensures (Gone ev k.log) (
              session ev
                (nl_listen ev bus groups portid w.receiver)
                (recv_cb ev settings fuel d revents)
                w
                k)
    receiver_session settings fuel d revents bus groups portid w k calm broken tells = (
      session-Gone bus groups portid (shut_down ev) w k
          (λ w' k' holds. shut_down-Gone k.log w' k' holds),
      session-Gone bus groups portid (recv_cb ev settings fuel d revents) w k
          (λ w' k' holds. recv_cb-Gone settings fuel d revents k.log w' k' calm broken tells holds),
    )
