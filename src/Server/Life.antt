-- ===== src/Server/Life.antt =====
-- Servers as owners of a descriptor, from listening to closing.
use sancus_core.Base.{
  ℕ, zero, suc, List, Option, Bool, true, false, not, ◌&&◌, ◌||◌, if◌then◌else◌, ◌≡◌, refl, sym, ap,
  ◌∙◌, ◌⊎◌, inl, inr, Bool-cases, arith, le→leb,
}
use sancus_core.Base.Int.{ℤ, pos, negsuc, leb_ℤ, eqb_ℤ}
use sancus_core.Base.Memory.{Bytes}
use sancus_core.Sys.{Kernel, Result, Sys, Entry, aborts, close_fd}
use sancus_core.Sys.Rules.{Ensures, Partially, Ensures-map, >>=-Ensures, Ensures-also}
use sancus_core.Sys.Closing.{close_fd-Shut}
use sancus_core.Sys.Ledger.{is_open, Opened, Closed, NoneOpened}
use sancus_core.Ev.{Ev, Keeping}
use sancus_core.Ev.Owned.{Stopping, Starting, Released, Owner, close-stop_owner}
use sancus_core.Server.{
  Server, World, Settings, start, stop, close, ipv4_listen, ipv6_listen, local_listen,
}
use sancus_core.Server.Leaks.{Hook, Listens}
use sancus_core.Server.Listen.{Resolver, listens_lem}
use sancus_core.Server.Idle.{Idles, Idle, ipv4_listen-Idle, ipv6_listen-Idle, local_listen-Idle}
use sancus_core.Server.Session.{took, events, serve, session, Records, Quiet, Accounts, events-Goes}

-- What is still open when a descriptor is closed.
and_cases : (a b : Bool) → (not a && b) ≡ true → (a ≡ false) × (b ≡ true)
and_cases true b h = absurd cc
and_cases false b h = (refl, h)

or_other : (a b : Bool) → a ≡ false → (a || b) ≡ true → b ≡ true
or_other a b e h = ground arith

module _ {W : Type 0} (ev : Ev W) (keeping : Keeping ev) where
  io-stop :
      (s : Server W)
      → (stop ev s).connect ≡ (if ev.is_active s.connect then (ev.stop s.connect).1 else s.connect)
  unfolding stop
  io-stop s = elim (Bool-cases (ev.is_active s.connect)) [ inl h ↦ rw h refl | inr h ↦ rw h refl ]

  close-Released :
      (s : Server W) (k : Kernel)
      → leb_ℤ (pos 0) (ev.fd s.connect) ≡ true
      → ev.is_active s.connect ≡ false
      → Ensures (Released ev (λ s'. s'.connect) (ev.fd s.connect) k) (close ev s k)
  unfolding close
  close-Released s k own idle =
      rw (own, idle)
        (>>=-Ensures _ _ (close_fd (ev.fd s.connect) k) _ (close_fd-Shut (ev.fd s.connect) k)
          (λ rc k' shut. (keeping.fd-with_fd (negsuc 0) s.connect, shut.0)))

  close-aborts : (s : Server W) (k : Kernel) → ev.fd s.connect ≡ negsuc 0 → close ev s k ≡ aborts
  unfolding close
  close-aborts s k gone = rw gone refl

  abbrev owner : Owner ev (Server W)
  owner = record {
    io = λ s. s.connect;
    stop = stop ev;
    close = close ev;
    io-stop = io-stop;
    close-Released = close-Released;
    close-aborts = close-aborts;
  }

  -- What listening owes to what follows.
  Ready : List Entry → ℤ × Server W → Kernel → Type 0
  Ready before (rc, s) k' =
      if eqb_ℤ rc (pos 1)
      then ((fd : ℕ) × (ev.fd s.connect ≡ pos fd)
          × Opened (pos fd) before k'.log
          × (ev.is_active s.connect ≡ false))
      else NoneOpened before k'.log

  Listens-Ready :
      (backlog : ℕ) (s : Server W) (before : List Entry) (r : ℤ × Server W) (k : Kernel)
      → Listens ev backlog s before r k
      → Idle ev r k
      → Ready before r k
  unfolding Ready
  Listens-Ready backlog s before (pos zero, s') k h idle = λ x e. sym ((h.1) x) ∙ e
  Listens-Ready backlog s before (pos (suc n), s') k (e, (fd, own, opened, listening)) idle =
      rw e (fd, own, opened, idle (rw e refl))
  Listens-Ready backlog s before (negsuc n, s') k h idle = h.0

  ready :
      (backlog : ℕ) (s : Server W) (before : List Entry) (r : Result (ℤ × Server W))
      → Ensures (Listens ev backlog s before) r
      → Partially (Idle ev) r
      → Ensures (Ready before) r
  ready backlog s before r h idle =
      Ensures-map _ _ r (Ensures-also _ _ r h idle)
        (λ a k both. Listens-Ready backlog s before a k (both.0) (both.1))

  module _ (stopping : Stopping ev) (starting : Starting ev) {A : Type 0} (settings : Settings W A)
      (taken : A → List ℕ) (records : Records ev settings taken) where
    Accounts-Closed :
        (fd : ℕ) (before log log' : List Entry) (w : World W A) (k : Kernel)
        → Opened (pos fd) before log
        → ((x : ℤ) → is_open x log' ≡ true → (is_open x log ≡ true) ⊎ (took x (taken w.app) ≡ true))
        → Closed (pos fd) log' k.log
        → Accounts ev settings taken before w k
    Accounts-Closed fd before log log' w k opened known closed x h =
        let (other, still) = and_cases (eqb_ℤ x (pos fd)) (is_open x log') (sym (closed x) ∙ h) in
        elim (known x still) [
          | inl was ↦
              inl (or_other (eqb_ℤ x (pos fd)) (is_open x before) other (sym (opened x) ∙ was))
          | inr had ↦ inr had
        ]

    serve-Accounts :
        (reported : List ℕ) (w : World W A) (before : List Entry) (k : Kernel) (fd : ℕ)
        → Quiet ev settings reported
        → ev.fd w.server.connect ≡ pos fd
        → Opened (pos fd) before k.log
        → ev.is_active w.server.connect ≡ false
        → Ensures (Accounts ev settings taken before) (serve ev settings reported w k)
    unfolding serve start
    serve-Accounts reported w before k fd quiet own opened idle =
        let started : World W A = record w {
          server = record { connect = (ev.start w.server.connect).1 };
        } in
        rw idle (
          >>=-Ensures _ _ (events ev settings reported started k) _
            (events-Goes ev settings taken records reported started k quiet)
            (λ w' k' (e, accounts, _).
              let own' : ev.fd w'.server.connect ≡ pos fd =
                e ∙ starting.fd-start w.server.connect ∙ own in
              >>=-Ensures _ _ (close ev (stop ev w'.server) k') _
                (close-stop_owner ev stopping owner (w'.server) k'
                  (ap (leb_ℤ (pos 0)) own' ∙ le→leb 0 fd (omega arith)))
                (λ s'' k'' gone.
                  Accounts-Closed fd before k.log k'.log (record w' { server = s'' }) k'' opened
                    accounts
                    (λ x. (gone.0.1) x ∙ ap (λ f. not (eqb_ℤ x f) && is_open x k'.log) own'))))

    session-Accounts :
        (listening : Sys (ℤ × Server W)) (reported : List ℕ) (w : World W A) (k : Kernel)
        → Ensures (Ready k.log) (listening k)
        → Quiet ev settings reported
        → Ensures (Accounts ev settings taken k.log) (session ev settings listening reported w k)
    unfolding session Ready
    session-Accounts listening reported w k listens quiet =
        >>=-Ensures (Ready k.log) _ (listening k) _ listens (λ r k' got.
          elim (Bool-cases (eqb_ℤ (r.0) (pos 1))) [
            | inl h ↦
                let (fd, own, opened, idle) = rw h at got in
                rw h (
                  serve-Accounts reported (record w { server = r.1 }) k.log k' fd quiet own opened
                    idle)
            | inr h ↦ rw h (λ x g. inl ((rw h at got) x g))
          ])

    -- A server is made to listen with any of the three functions; where that returns 1, it is
    -- started, any events are reported to it that are not errors, and it is stopped and closed.
    -- Whatever the kernel answers, no assertion fails on the way, and every descriptor that is open
    -- in the end was open before or is in the list of those that the application took. The
    -- application's callbacks fail no assertion, open and close nothing, add a descriptor to that
    -- list exactly when they take it, and leave the watcher its descriptor; `pre_bind` does the
    -- first, the second and the last, and leaves an idle watcher idle. `inet_pton` answers 0 or 1,
    -- and the event library keeps descriptors and has watchers that are active neither when set up
    -- nor when stopped.
    pub server_session :
        (backlog : ℕ) (inet_pton : ℕ → Bytes → ℤ × Bytes) (addr path : Option Bytes) (port : ℕ)
        (cloexec : Bool) (reported : List ℕ) (w : World W A) (k : Kernel)
        → Hook ev keeping backlog settings.pre_bind
        → Idles ev settings.pre_bind
        → Resolver inet_pton
        → Quiet ev settings reported
        → Ensures (Accounts ev settings taken k.log) (
            session ev settings
              (ipv4_listen ev settings inet_pton addr port cloexec backlog w.server)
              reported
              w
              k)
          × Ensures (Accounts ev settings taken k.log) (
              session ev settings
                (ipv6_listen ev settings inet_pton addr port cloexec backlog w.server)
                reported
                w
                k)
          × Ensures (Accounts ev settings taken k.log) (
              session ev settings
                (local_listen ev settings path cloexec backlog w.server)
                reported
                w
                k)
    server_session backlog inet_pton addr path port cloexec reported w k hook idles resolver quiet =
        let s = w.server in
        let (v4, v6, local) =
          listens_lem ev keeping backlog settings hook inet_pton addr path port cloexec s k
            resolver in
        (
          session-Accounts _ reported w k
              (ready backlog s k.log _ v4 (
                ipv4_listen-Idle ev starting settings idles cloexec backlog s k inet_pton addr
                  port))
              quiet,
          session-Accounts _ reported w k
              (ready backlog s k.log _ v6 (
                ipv6_listen-Idle ev starting settings idles cloexec backlog s k inet_pton addr
                  port))
              quiet,
          session-Accounts _ reported w k
              (ready backlog s k.log _ local
                (local_listen-Idle ev starting settings path cloexec backlog s k idles))
              quiet,
        )
