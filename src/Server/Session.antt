-- ===== src/Server/Session.antt =====
-- What servers do from listening to closing, and what a sequence of events comes to.
use sancus_core.Base.{
  ℕ, List, [], ◌∷◌, Bool, true, false, ◌||◌, if◌then◌else◌, ◌≡◌, refl, sym, ap, ◌∙◌, ◌⊎◌, inl, inr,
  Bool-cases,
}
use sancus_core.Base.Int.{ℤ, pos, negsuc, eqb_ℤ}
use sancus_core.Sys.{Kernel, Sys, Entry, pure, ◌>>=◌, close_fd}
use sancus_core.Sys.Rules.{Ensures, Ensures-map, >>=-Ensures}
use sancus_core.Sys.Closing.{close_fd-Shut}
use sancus_core.Sys.Ledger.{is_open, Acquired, Opened, Same, Closed-NoneOpened, Same-Opened}
use sancus_core.Ev.{Ev, has}
use sancus_core.Socket.{sancus_accept}
use sancus_core.Socket.Leaks.{sancus_accept_lem}
use sancus_core.Server.{
  Server, World, Settings, accept_error, accepted, connect_cb, start, stop, close,
}

-- A descriptor is one of a list.
abbrev pub took : ℤ → List ℕ → Bool
took x [] = false
took x (fd ∷ taken) = eqb_ℤ x (pos fd) || took x taken

pub or_cases : (a b : Bool) → (a || b) ≡ true → (a ≡ true) ⊎ (b ≡ true)
or_cases true b h = inl refl
or_cases false b h = inr h

or_right : (a b : Bool) → b ≡ true → (a || b) ≡ true
or_right true b h = refl
or_right false b h = h

module _ {W : Type 0} (ev : Ev W) {A : Type 0} (settings : Settings W A) where
  -- The events that the loop reports for the server, in their order.
  unfoldable pub events : List ℕ → World W A → Sys (World W A)
  events [] w = pure w
  events (revents ∷ rest) w = connect_cb ev settings revents w >>= λ w'. events rest w'

  -- From a server that listens to one that is closed.
  unfoldable pub serve : List ℕ → World W A → Sys (World W A)
  serve reported w = do
    s ← start ev w.server
    w' ← events reported (record w { server = s })
    s' ← close ev (stop ev w'.server)
    pure (record w' { server = s' })

  -- A server that is made to listen, and where it does, serves.
  unfoldable pub session : Sys (ℤ × Server W) → List ℕ → World W A → Sys (World W A)
  session listening reported w = listening >>= λ r.
      if eqb_ℤ (r.0) (pos 1)
      then serve reported (record w { server = r.1 })
      else pure (record w { server = r.1 })

  -- An application that keeps the descriptors it takes in `taken`; it fails no assertion, opens and
  -- closes nothing, and leaves the server's watcher its descriptor.
  abbrev pub Stays : World W A → Kernel → World W A → Kernel → Type 0
  Stays w k w' k' = (ev.fd w'.server.connect ≡ ev.fd w.server.connect) × Same k.log k'.log

  abbrev pub Records : (A → List ℕ) → Type 0
  Records taken =
      ((fd : ℕ) (w : World W A) (k : Kernel)
        → Ensures
            (λ r k'.
              Stays w k (r.1) k'
              × (taken (r.1).app ≡ (if r.0 then fd ∷ taken w.app else taken w.app)))
            (settings.on_connect fd w k))
      × ((w : World W A) (k : Kernel)
          → Ensures (λ w' k'. Stays w k w' k' × (taken w'.app ≡ taken w.app))
              (settings.on_error accept_error w k))

  -- No event is an error.
  abbrev pub Quiet : List ℕ → Type 0
  Quiet [] = Unit
  Quiet (revents ∷ rest) = (has revents ev.error_bit ≡ false) × Quiet rest

  -- What is open was open, or the application has it.
  abbrev pub Accounts : (A → List ℕ) → List Entry → World W A → Kernel → Type 0
  Accounts taken before w k =
      (x : ℤ) → is_open x k.log ≡ true → (is_open x before ≡ true) ⊎ (took x (taken w.app) ≡ true)

  module _ (taken : A → List ℕ) (records : Records taken) where
    -- What a stretch of events owes: besides, the watcher keeps its descriptor, and the application
    -- what it has.
    abbrev pub Goes : List Entry → World W A → World W A → Kernel → Type 0
    Goes before w w' k' =
        (ev.fd w'.server.connect ≡ ev.fd w.server.connect)
        × Accounts taken before w' k'
        × ((x : ℤ) → took x (taken w.app) ≡ true → took x (taken w'.app) ≡ true)

    Goes-trans :
        (before : List Entry) (w w' w'' : World W A) (k' k'' : Kernel)
        → Goes before w w' k'
        → Goes k'.log w' w'' k''
        → Goes before w w'' k''
    Goes-trans before w w' w'' k' k'' (e, accounts, keeps) (e', accounts', keeps') = (
      e' ∙ e,
      (λ x h. elim (accounts' x h) [
        | inr g ↦ inr g
        | inl g ↦ elim (accounts x g) [ inl b ↦ inl b | inr t ↦ inr (keeps' x t) ]
      ]),
      λ x h. keeps' x (keeps x h),
    )

    accepted-Goes :
        (fd : ℤ) (w : World W A) (before : List Entry) (k : Kernel)
        → Acquired before fd k.log
        → Ensures (λ w' k'. Goes before w w' k') (accepted ev settings fd w k)
    unfolding accepted
    accepted-Goes (negsuc n) w before k none_opened =
        Ensures-map _ _ (settings.on_error accept_error w k) (records.1 w k)
          (λ w' k' ((e, same), list).
            (e, (λ x h. inl (none_opened x (sym (same x) ∙ h))), λ x h. ap (took x) list ∙ h))
    accepted-Goes (pos fd) w before k opened =
        >>=-Ensures _ _ (settings.on_connect fd w k) _ (records.0 fd w k) (λ r k' ((e, same), list).
          let opened' : Opened (pos fd) before k'.log =
            Same-Opened (pos fd) before k.log k'.log opened same in
          elim (Bool-cases (r.0)) [
            | inl h ↦
                let more : taken (r.1).app ≡ fd ∷ taken w.app = list ∙ rw h refl in
                rw h (
                  e,
                  (λ x g.
                      elim (or_cases (eqb_ℤ x (pos fd)) (is_open x before) (sym (opened' x) ∙ g)) [
                        | inl here ↦
                            inr (ap (took x) more ∙ ap (λ b. b || took x (taken w.app)) here)
                        | inr there ↦ inl there
                      ]),
                  λ x g. ap (took x) more ∙ or_right (eqb_ℤ x (pos fd)) (took x (taken w.app)) g,
                )
            | inr h ↦
                let as_before : taken (r.1).app ≡ taken w.app = list ∙ rw h refl in
                rw h (
                  >>=-Ensures _ _ (close_fd (pos fd) k') _ (close_fd-Shut (pos fd) k')
                    (λ rc k'' shut. (
                      e,
                      (λ x g.
                          inl (
                            Closed-NoneOpened (pos fd) before k'.log k''.log opened' (shut.0) x g)),
                      λ x g. ap (took x) as_before ∙ g,
                    )))
          ])

    connect_cb-Goes :
        (revents : ℕ) (w : World W A) (k : Kernel)
        → has revents ev.error_bit ≡ false
        → Ensures (λ w' k'. Goes k.log w w' k') (connect_cb ev settings revents w k)
    unfolding connect_cb
    connect_cb-Goes revents w k quiet = elim (Bool-cases (has revents ev.read_bit)) [
      | inl g ↦
          rw (quiet, g)
            (>>=-Ensures _ _ (sancus_accept (ev.fd w.server.connect) k) _
              (sancus_accept_lem (ev.fd w.server.connect) k)
              (λ fd k' acquired. accepted-Goes fd w k.log k' acquired))
      | inr g ↦ rw (quiet, g) (refl, (λ x h. inl h), λ x h. h)
    ]

    pub events-Goes :
        (reported : List ℕ) (w : World W A) (k : Kernel)
        → Quiet reported
        → Ensures (λ w' k'. Goes k.log w w' k') (events reported w k)
    unfolding events
    events-Goes [] w k quiet = (refl, (λ x h. inl h), λ x h. h)
    events-Goes (revents ∷ rest) w k (quiet, later) =
        >>=-Ensures _ _ (connect_cb ev settings revents w k) _ (connect_cb-Goes revents w k quiet)
          (λ w' k' went.
            Ensures-map _ _ (events rest w' k') (events-Goes rest w' k' later)
              (λ w'' k'' went'. Goes-trans k.log w w' w'' k' k'' went went'))
