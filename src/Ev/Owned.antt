-- ===== src/Ev/Owned.antt =====
-- What connections, servers and receivers have in common: an object with a watcher whose descriptor
-- is its own, that is stopped and closed.
use sancus_core.Base.{
  ℕ, true, false, not, ◌≡◌, refl, ap, ◌∙◌, Bool-cases, inl, inr, ◌&&◌, if◌then◌else◌,
}
use sancus_core.Base.Int.{ℤ, pos, negsuc, leb_ℤ, eqb_ℤ}
use sancus_core.Sys.{Kernel, Sys, aborts}
use sancus_core.Sys.Rules.{Ensures, Ensures-map}
use sancus_core.Sys.Ledger.{is_open, Closed}
use sancus_core.Ev.{Ev, Handler}

-- An event library whose watchers are not active once they are stopped, and keep their descriptors.
pub record Stopping {W : Type 0} (ev : Ev W) : Type 0 where
  pub is_active-stop : (w : W) → ev.is_active ((ev.stop w).1) ≡ false
  pub fd-stop : (w : W) → ev.fd ((ev.stop w).1) ≡ ev.fd w

-- One whose watchers are not active when they are set up, and keep their descriptors when they are
-- started.
pub record Starting {W : Type 0} (ev : Ev W) : Type 0 where
  pub is_active-init :
      (cb : Handler) (x : ℤ) (mode : ℕ) (w : W) → ev.is_active ((ev.init cb x mode w).1) ≡ false
  pub fd-start : (w : W) → ev.fd ((ev.start w).1) ≡ ev.fd w

-- An object whose descriptor is gone, and closed in the log.
abbrev pub Released : {S W : Type 0} → Ev W → (S → W) → ℤ → Kernel → S → Kernel → Type 0
Released ev io fd k s' k' = (ev.fd (io s') ≡ negsuc 0) × Closed fd k.log k'.log

-- The operations, and what they owe: stopping stops the watcher if it is active; closing releases
-- an idle object, and fails an assertion where there is no descriptor.
pub record Owner {W : Type 0} (ev : Ev W) (S : Type 0) : Type 0 where
  pub io : S → W
  pub stop : S → S
  pub close : S → Sys S
  pub io-stop : (s : S) → io (stop s) ≡ (if ev.is_active (io s) then (ev.stop (io s)).1 else io s)
  pub close-Released :
      (s : S) (k : Kernel)
      → leb_ℤ (pos 0) (ev.fd (io s)) ≡ true
      → ev.is_active (io s) ≡ false
      → Ensures (Released ev io (ev.fd (io s)) k) (close s k)
  pub close-aborts : (s : S) (k : Kernel) → ev.fd (io s) ≡ negsuc 0 → close s k ≡ aborts

module _ {W S : Type 0} (ev : Ev W) (stopping : Stopping ev) (o : Owner ev S) where
  is_active-stop : (s : S) → ev.is_active (o.io (o.stop s)) ≡ false
  is_active-stop s = rw (o.io-stop s) (elim (Bool-cases (ev.is_active (o.io s))) [
    | inl h ↦ rw h (stopping.is_active-stop (o.io s))
    | inr h ↦ rw h h
  ])

  fd-stop : (s : S) → ev.fd (o.io (o.stop s)) ≡ ev.fd (o.io s)
  fd-stop s = rw (o.io-stop s) (elim (Bool-cases (ev.is_active (o.io s))) [
    | inl h ↦ rw h (stopping.fd-stop (o.io s))
    | inr h ↦ rw h refl
  ])

  -- Stopped and then closed, it is released, and cannot be closed again.
  pub close-stop_owner :
      (s : S) (k : Kernel)
      → leb_ℤ (pos 0) (ev.fd (o.io s)) ≡ true
      → Ensures
          (λ s' k'. Released ev o.io (ev.fd (o.io s)) k s' k' × (o.close s' k' ≡ aborts))
          (o.close (o.stop s) k)
  close-stop_owner s k own =
      Ensures-map _ _ (o.close (o.stop s) k)
        (o.close-Released (o.stop s) k (ap (leb_ℤ (pos 0)) (fd-stop s) ∙ own) (is_active-stop s))
        (λ s' k' gone. (
          (gone.0, λ x. (gone.1) x ∙ ap (λ f. not (eqb_ℤ x f) && is_open x k.log) (fd-stop s)),
          o.close-aborts s' k' (gone.0),
        ))
