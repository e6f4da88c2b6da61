-- ===== src/Conn/Life.antt =====
-- Connections as owners of a descriptor: stopped, then closed.
use sancus_core.Base.{true, false, if◌then◌else◌, ◌≡◌, refl, Bool-cases, inl, inr}
use sancus_core.Base.Int.{pos, negsuc, leb_ℤ}
use sancus_core.Sys.{Kernel, aborts, close_fd}
use sancus_core.Sys.Rules.{Ensures, >>=-Ensures}
use sancus_core.Sys.Closing.{close_fd-Shut}
use sancus_core.Ev.{Ev, Keeping}
use sancus_core.Ev.Owned.{Stopping, Released, Owner, close-stop_owner}
use sancus_core.Conn.{Conn, stop, close}

module _ {W : Type 0} (ev : Ev W) (keeping : Keeping ev) where
  pub io-stop :
      (c : Conn W) → (stop ev c).io ≡ (if ev.is_active c.io then (ev.stop c.io).1 else c.io)
  unfolding stop
  io-stop c = elim (Bool-cases (ev.is_active c.io)) [ inl h ↦ rw h refl | inr h ↦ rw h refl ]

  pub close-Released :
      (c : Conn W) (k : Kernel)
      → leb_ℤ (pos 0) (ev.fd c.io) ≡ true
      → ev.is_active c.io ≡ false
      → Ensures (Released ev (λ c'. c'.io) (ev.fd c.io) k) (close ev c k)
  unfolding close
  close-Released c k own idle =
      rw (own, idle)
        (>>=-Ensures _ _ (close_fd (ev.fd c.io) k) _ (close_fd-Shut (ev.fd c.io) k)
          (λ rc k' shut. (keeping.fd-with_fd (negsuc 0) c.io, shut.0)))

  pub close-aborts : (c : Conn W) (k : Kernel) → ev.fd c.io ≡ negsuc 0 → close ev c k ≡ aborts
  unfolding close
  close-aborts c k gone = rw gone refl

  abbrev pub owner : Owner ev (Conn W)
  owner = record {
    io = λ c. c.io;
    stop = stop ev;
    close = close ev;
    io-stop = io-stop;
    close-Released = close-Released;
    close-aborts = close-aborts;
  }

  -- A connection with a descriptor, watched or not, that is stopped and then closed fails no
  -- assertion, on an event library that keeps descriptors and whose stopped watchers are not
  -- active: however often `close` is interrupted, the descriptor is closed and the watcher has
  -- none. A second close fails an assertion.
  pub close-stop :
      (stopping : Stopping ev) (c : Conn W) (k : Kernel)
      → leb_ℤ (pos 0) (ev.fd c.io) ≡ true
      → Ensures
          (λ c' k'. Released ev (λ c''. c''.io) (ev.fd c.io) k c' k' × (close ev c' k' ≡ aborts))
          (close ev (stop ev c) k)
  close-stop stopping c k own = close-stop_owner ev stopping owner c k own
