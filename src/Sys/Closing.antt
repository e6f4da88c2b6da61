-- ===== src/Sys/Closing.antt =====
-- `sancus_close` in the log: however often it is interrupted, its descriptor is closed, and no other.
use sancus_core.Base.{
  ℕ, ap, not, ◌&&◌, some, List, [], ◌∷◌, ◌≡◌, refl, Bool-cases, inl, inr, ◌==◌, ◌∙◌,
}
use sancus_core.Base.Int.{ℤ, pos, eqb_ℤ}
use sancus_core.Fd.{Answer, done, fail, eintr}
use sancus_core.Sys.{Entry, Kernel, close, close_fd, close_from}
use sancus_core.Sys.Rules.{Ensures, Ensures-map}
use sancus_core.Sys.Ledger.{
  is_open, last_attach, Opened, Closed, Refused, Closed-NoneOpened, Closed-again,
}

-- What `sancus_close` does to the log.
abbrev pub Shut : ℤ → Kernel → Kernel → Type 0
Shut fd k k' = Closed fd k.log k'.log × (last_attach k'.log ≡ last_attach k.log)

close_from-Shut :
    (fd : ℤ) (answers : List Answer) (k : Kernel)
    → Ensures (λ rc k'. Shut fd k k') (close_from fd answers k)
unfolding close_from
close_from-Shut fd [] k = tt
close_from-Shut fd (done n ∷ rest) k = ((λ x. refl), refl)
close_from-Shut fd (fail e ∷ rest) k =
    let k' : Kernel = record {
      answers = rest;
      log = record { call = close fd; answer = fail e } ∷ k.log;
      errno = e;
    } in
    elim (Bool-cases (e == eintr)) [
      | inl h ↦ rw h (
          Ensures-map _ _ (close_from fd rest k') (close_from-Shut fd rest k') (λ rc k'' shut.
            ((λ x. (shut.0) x ∙ Closed-again (eqb_ℤ x fd) (is_open x k.log)), shut.1)))
      | inr h ↦ rw h ((λ x. refl), refl)
    ]

pub close_fd-Shut : (fd : ℤ) (k : Kernel) → Ensures (λ rc k'. Shut fd k k') (close_fd fd k)
unfolding close_fd
close_fd-Shut fd k = close_from-Shut fd k.answers k

-- What does not depend on the calls of `close` in the log is as it was.
module _ {A : Type 0} (f : List Entry → A) (fd : ℤ)
    (blind : (a : Answer) (log : List Entry)
      → f (record { call = close fd; answer = a } ∷ log) ≡ f log) where
  close_from-keeps :
      (answers : List Answer) (k : Kernel)
      → Ensures (λ rc k'. f k'.log ≡ f k.log) (close_from fd answers k)
  unfolding close_from
  close_from-keeps [] k = tt
  close_from-keeps (done n ∷ rest) k = blind (done n) k.log
  close_from-keeps (fail e ∷ rest) k =
      let k' : Kernel = record {
        answers = rest;
        log = record { call = close fd; answer = fail e } ∷ k.log;
        errno = e;
      } in
      elim (Bool-cases (e == eintr)) [
        | inl h ↦ rw h (
            Ensures-map _ _ (close_from fd rest k') (close_from-keeps rest k')
              (λ rc k'' same. same ∙ blind (fail e) k.log))
        | inr h ↦ rw h (blind (fail e) k.log)
      ]

  pub close_fd-keeps : (k : Kernel) → Ensures (λ rc k'. f k'.log ≡ f k.log) (close_fd fd k)
  unfolding close_fd
  close_fd-keeps k = close_from-keeps k.answers k

-- A descriptor that was opened, and is closed because the call with `e` failed.
pub Shut-Refused :
    (before : List Entry) (k k' : Kernel) (fd e : ℕ) (x : ℤ)
    → x ≡ pos fd
    → Opened (pos fd) before k.log
    → last_attach k.log ≡ some (fail e)
    → Shut x k k'
    → Refused before (record k' { errno = e })
Shut-Refused before k k' fd e x own opened last shut = (
  Closed-NoneOpened (pos fd) before k.log k'.log opened
      (λ y. (shut.0) y ∙ ap (λ f. not (eqb_ℤ y f) && is_open y k.log) own),
  rw (shut.1 ∙ last) refl,
)
