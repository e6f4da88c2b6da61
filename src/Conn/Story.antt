-- ===== src/Conn/Story.antt =====
-- The order in which a connection calls its application back.
use sancus_core.Base.{
  ℕ, Bool, true, false, ◌||◌, List, [], ◌∷◌, ◌≡◌, refl, inl, inr, Bool-cases, ◌==◌,
}
use sancus_core.Sys.{Result, Kernel, aborts, Sys, pure, ◌>>=◌, get_error}
use sancus_core.Sys.Rules.{
  Ensures, Ensures-map, >>=-Ensures, call-Ensures, Partially, Ensures-Partially, >>=-Partially,
}
use sancus_core.Ev.{Ev, has}
use sancus_core.Conn.{
  World, Settings, State, inprogress, connected, running, failed, Error, watcher_error,
  connect_error, set_state, set_io, watch_reads, connect_done, refused, settle, dispatch, io_cb,
}

-- The calls of the application.
pub data Event : Type 0 where
  reads : Event
  connects : Event
  errs : Error → Event

-- The calls that may lie behind a connection in a state, the last one first: it is connected once,
-- is read from only after that, and is called no more once it has failed but for its watcher's
-- errors.
pub data Story : List Event → State → Type 0 where
  opens_inprogress : Story [] inprogress
  opens_connected : Story [] connected
  errs_watching : {t : List Event} {s : State} → Story t s → Story (errs watcher_error ∷ t) s
  connects_inprogress : {t : List Event} → Story t inprogress → Story (connects ∷ t) running
  connects_connected : {t : List Event} → Story t connected → Story (connects ∷ t) running
  reads_running : {t : List Event} → Story t running → Story (reads ∷ t) running
  refuses : {t : List Event} → Story t inprogress → Story (errs connect_error ∷ t) failed

module _ {W : Type 0} {A : Type 0} where
  -- The world of an application that keeps the calls as well.
  abbrev pub forget : World W (List Event × A) → World W A
  forget w = record { conn = w.conn; loop = w.loop; app = w.app.1 }

  abbrev pub remember : List Event → World W A → World W (List Event × A)
  remember t w = record { conn = w.conn; loop = w.loop; app = (t, w.app) }

  abbrev pub noted :
      Event
      → (World W A → Sys (World W A))
      → World W (List Event × A)
      → Sys (World W (List Event × A))
  noted e f w = f (forget w) >>= λ w'. pure (remember (e ∷ w.app.0) w')

  abbrev pub traced : Settings W A → Settings W (List Event × A)
  traced s = record {
    on_read = noted reads s.on_read;
    on_connect = noted connects s.on_connect;
    on_error = λ e. noted (errs e) (s.on_error e);
  }

  -- A callback that fails no assertion, and leaves the connection's state to the library.
  abbrev pub Polite : (World W A → Sys (World W A)) → Type 0
  Polite f = (w : World W A) (k : Kernel) → Ensures (λ w' k'. w'.conn.state ≡ w.conn.state) (f w k)

-- The events that the states take without a failed assertion.
abbrev pub expects : {W : Type 0} → Ev W → State → ℕ → Bool
expects ev inprogress revents = has revents ev.write_bit
expects ev connected revents = has revents ev.write_bit
expects ev running revents = true
expects ev failed revents = false

abbrev pub expected : {W : Type 0} → Ev W → State → ℕ → Bool
expected ev state revents = has revents ev.error_bit || expects ev state revents

module _ {W : Type 0} (ev : Ev W) {A : Type 0} (s : Settings W A) where
  -- The calls are a story of the state.
  abbrev pub Told : World W (List Event × A) → Kernel → Type 0
  Told w k = Story (w.app.0) w.conn.state

  noted-Told :
      (e : Event) (f : World W A → Sys (World W A)) (w : World W (List Event × A)) (k : Kernel)
      → Polite f
      → Ensures (λ w' k'. (w'.app.0 ≡ e ∷ w.app.0) × (w'.conn.state ≡ w.conn.state)) (noted e f w k)
  noted-Told e f w k polite =
      >>=-Ensures _ _ (f (forget w) k) _ (polite (forget w) k) (λ w' k' h. (refl, h))

  connect_done-Told :
      (w : World W (List Event × A)) (k : Kernel)
      → Polite s.on_connect
      → Story (connects ∷ w.app.0) running
      → Ensures Told (connect_done ev (traced s) w k)
  unfolding connect_done
  connect_done-Told w k polite story =
      >>=-Ensures _ _ (noted connects s.on_connect (set_io (watch_reads ev w.conn.io) w) k) _
        (noted-Told connects s.on_connect (set_io (watch_reads ev w.conn.io) w) k polite)
        (λ w' k' h. rw (h.0) story)

  refused-Told :
      (w : World W (List Event × A)) (k : Kernel)
      → Polite (s.on_error connect_error)
      → Story (w.app.0) inprogress
      → Ensures Told (refused ev (traced s) w k)
  unfolding refused
  refused-Told w k polite story =
      Ensures-map _ _ (noted (errs connect_error) (s.on_error connect_error) (set_state failed w) k)
        (noted-Told (errs connect_error) (s.on_error connect_error) (set_state failed w) k polite)
        (λ w' k' h. rw (h.0, h.1) (refuses story))

  settle-Told :
      (w : World W (List Event × A)) (k : Kernel)
      → Polite s.on_connect
      → Polite (s.on_error connect_error)
      → Story (w.app.0) inprogress
      → Ensures Told (settle ev (traced s) w k)
  unfolding settle
  settle-Told w k connects? errs? story =
      call-Ensures _ (get_error (ev.fd w.conn.io)) k _
        (λ n k' called. elim (Bool-cases (n == 0)) [
          | inl h ↦ rw h (connect_done-Told w k' connects? (connects_inprogress story))
          | inr h ↦ rw h (refused-Told w (record k' { errno = n }) errs? story)
        ])
        (λ e k' called. refused-Told w k' errs? story)

  -- The application's callbacks, each of which is polite.
  abbrev pub Courteous : Type 0
  Courteous = Polite s.on_read × Polite s.on_connect × ((e : Error) → Polite (s.on_error e))

  dispatch-Told :
      (state : State) (revents : ℕ) (w : World W (List Event × A)) (k : Kernel)
      → Courteous
      → w.conn.state ≡ state
      → Story (w.app.0) state
      → expects ev state revents ≡ true
      → Ensures Told (dispatch ev (traced s) state revents w k)
  unfolding dispatch
  dispatch-Told inprogress revents w k (r, c, e) at story h =
      elim (Bool-cases (has revents ev.read_bit)) [
        | inl g ↦ rw (h, g) (settle-Told w k c (e connect_error) story)
        | inr g ↦ rw (h, g) (connect_done-Told w k c (connects_inprogress story))
      ]
  dispatch-Told connected revents w k (r, c, e) at story h =
      rw h (connect_done-Told w k c (connects_connected story))
  dispatch-Told running revents w k (r, c, e) at story h =
      elim (Bool-cases (has revents ev.read_bit)) [
        | inl g ↦ rw g (
            >>=-Ensures _ _ (noted reads s.on_read w k) _ (noted-Told reads s.on_read w k r)
              (λ w' k' told. rw (told.0, told.1, at) (reads_running story)))
        | inr g ↦ rw (g, at) story
      ]
  dispatch-Told failed revents w k courteous at story h = cc

  dispatch-aborts :
      (state : State) (revents : ℕ) (w : World W (List Event × A)) (k : Kernel)
      → expects ev state revents ≡ false
      → dispatch ev (traced s) state revents w k ≡ aborts
  unfolding dispatch
  dispatch-aborts inprogress revents w k h = rw h refl
  dispatch-aborts connected revents w k h = rw h refl
  dispatch-aborts running revents w k h = cc
  dispatch-aborts failed revents w k h = refl

  -- A run that goes through to a story, and one that fails an assertion.
  abbrev pub Goes : Bool → Result (World W (List Event × A)) → Type 0
  Goes true r = Ensures Told r
  Goes false r = r ≡ aborts

  Goes-Partially : (b : Bool) (r : Result (World W (List Event × A))) → Goes b r → Partially Told r
  Goes-Partially true r h = Ensures-Partially Told r h
  Goes-Partially false r h = rw h tt

  -- With callbacks that fail no assertion and leave the state alone: an event that reports an error,
  -- or is writable while the connection is made, or comes to a running one, goes through without a
  -- failed assertion, and the calls of the application so far are again a story of the state that
  -- the connection is in. Every other event fails an assertion.
  pub io_cb_lem :
      (revents : ℕ) (w : World W (List Event × A)) (k : Kernel)
      → Courteous
      → Story (w.app.0) w.conn.state
      → Goes (expected ev w.conn.state revents) (io_cb ev (traced s) revents w k)
  unfolding io_cb
  io_cb_lem revents w k courteous story = elim (Bool-cases (has revents ev.error_bit)) [
    | inl h ↦ rw h (
        Ensures-map _ _ (noted (errs watcher_error) (s.on_error watcher_error) w k)
          (noted-Told (errs watcher_error) (s.on_error watcher_error) w k
            (courteous.2 watcher_error))
          (λ w' k' told. rw (told.0, told.1) (errs_watching story)))
    | inr h ↦ elim (Bool-cases (expects ev w.conn.state revents)) [
      | inl g ↦ rw (h, g) (dispatch-Told w.conn.state revents w k courteous refl story g)
      | inr g ↦ rw (h, g) (dispatch-aborts w.conn.state revents w k g)
    ]
  ]

  -- One event after the other.
  abbrev pub run : List ℕ → World W (List Event × A) → Sys (World W (List Event × A))
  run [] w = pure w
  run (revents ∷ rest) w = io_cb ev (traced s) revents w >>= λ w'. run rest w'

  -- Whatever the event loop reports, in whatever order, and whatever the kernel answers: as long as no
  -- assertion has failed, the calls of the application are a story of the connection's state, with
  -- callbacks that fail no assertion and leave that state alone.
  pub story_lem :
      (events : List ℕ) (w : World W (List Event × A)) (k : Kernel)
      → Courteous
      → Story (w.app.0) w.conn.state
      → Partially Told (run events w k)
  story_lem [] w k courteous story = story
  story_lem (revents ∷ rest) w k courteous story =
      >>=-Partially Told Told (io_cb ev (traced s) revents w k) (λ w'. run rest w') step
        (λ w' k' story'. story_lem rest w' k' courteous story')
    where
      step : Partially Told (io_cb ev (traced s) revents w k)
      step =
          Goes-Partially (expected ev w.conn.state revents) (io_cb ev (traced s) revents w k)
            (io_cb_lem revents w k courteous story)
