-- ===== src/Server/Accept.antt =====
-- What becomes of a connection that comes in.
use sancus_core.Base.{ℕ, Bool, true, false, List, ◌≡◌, refl, sym, ◌∙◌, ◌⊎◌, inl, inr, Bool-cases}
use sancus_core.Base.Int.{ℤ, pos, negsuc}
use sancus_core.Sys.{Result, Kernel, returns, aborts, Entry, close_fd}
use sancus_core.Sys.Rules.{Ensures, Ensures-map, >>=-Ensures}
use sancus_core.Sys.Ledger.{Acquired, Opened, Same, NoneOpened, Closed-NoneOpened, Same-Opened}
use sancus_core.Sys.Closing.{close_fd-Shut}
use sancus_core.Ev.{Ev, has}
use sancus_core.Socket.{sancus_accept}
use sancus_core.Socket.Leaks.{sancus_accept_lem}
use sancus_core.Server.{World, Settings, accept_error, accepted, connect_cb}

module _ {W : Type 0} {A : Type 0} where
  -- An application that takes the descriptors that `takes` says, and opens and closes none itself.
  abbrev pub Decides : Settings W A → (ℕ → World W A → Bool) → Type 0
  Decides settings takes =
      ((fd : ℕ) (w : World W A) (k : Kernel)
        → Ensures (λ r k'. (r.0 ≡ takes fd w) × Same k.log k'.log) (settings.on_connect fd w k))
      × ((w : World W A) (k : Kernel)
          → Ensures (λ w' k'. Same k.log k'.log) (settings.on_error accept_error w k))

  -- Either one descriptor was opened, and the application took it, or none is open that was not.
  abbrev pub Admits : (ℕ → World W A → Bool) → World W A → List Entry → List Entry → Type 0
  Admits takes w before log =
      ((fd : ℕ) × (takes fd w ≡ true) × Opened (pos fd) before log) ⊎ NoneOpened before log

module _ {W : Type 0} (ev : Ev W) {A : Type 0} (settings : Settings W A)
    (takes : ℕ → World W A → Bool) (decides : Decides settings takes) where
  accepted-Admits :
      (fd : ℤ) (w : World W A) (before : List Entry) (k : Kernel)
      → Acquired before fd k.log
      → Ensures (λ w' k'. Admits takes w before k'.log) (accepted ev settings fd w k)
  unfolding accepted
  accepted-Admits (negsuc n) w before k none_opened =
      Ensures-map _ _ (settings.on_error accept_error w k) (decides.1 w k)
        (λ w' k' same. inr (λ x h. none_opened x (sym (same x) ∙ h)))
  accepted-Admits (pos fd) w before k opened =
      >>=-Ensures _ _ (settings.on_connect fd w k) _ (decides.0 fd w k) (λ r k' said.
        let opened' : Opened (pos fd) before k'.log =
          Same-Opened (pos fd) before k.log k'.log opened (said.1) in
        elim (Bool-cases (r.0)) [
          | inl h ↦ rw h (inl (fd, sym (said.0) ∙ h, opened'))
          | inr h ↦ rw h (
              >>=-Ensures _ _ (close_fd (pos fd) k') _ (close_fd-Shut (pos fd) k') (λ rc k'' shut.
                inr (Closed-NoneOpened (pos fd) before k'.log k''.log opened' (shut.0))))
        ])

  -- What an event owes that reports an error, is for reading, or neither.
  abbrev pub Serves : Bool → Bool → World W A → Kernel → Result (World W A) → Type 0
  Serves true readable w k r = r ≡ aborts
  Serves false true w k r = Ensures (λ w' k'. Admits takes w k.log k'.log) r
  Serves false false w k r = r ≡ returns w k

  -- An event on a listening socket: an error fails an assertion; without the bit for reading nothing
  -- happens; with it, whatever `accept` answers, however often it is interrupted, a descriptor that
  -- comes in is either taken by the application and open, or closed again, and no other is opened.
  -- The application decides by `takes`, fails no assertion, and opens and closes nothing itself.
  pub connect_cb_lem :
      (revents : ℕ) (w : World W A) (k : Kernel)
      → Serves
          (has revents ev.error_bit)
          (has revents ev.read_bit)
          w
          k
          (connect_cb ev settings revents w k)
  unfolding connect_cb
  connect_cb_lem revents w k = elim (Bool-cases (has revents ev.error_bit)) [
    | inl h ↦ rw h refl
    | inr h ↦ elim (Bool-cases (has revents ev.read_bit)) [
      | inl g ↦
          rw (h, g)
            (>>=-Ensures _ _ (sancus_accept (ev.fd w.server.connect) k) _
              (sancus_accept_lem (ev.fd w.server.connect) k)
              (λ fd k' acquired. accepted-Admits fd w k.log k' acquired))
      | inr g ↦ rw (h, g) refl
    ]
  ]
