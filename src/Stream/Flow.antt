-- ===== src/Stream/Flow.antt =====
-- No byte is lost, and none is delivered twice.
use sancus_core.Base.{
  ℕ, ◌-◌, not, ◌&&◌, Option, some, ◌++◌, append_assoc, ◌≡◌, refl, sym, ap, ◌∙◌, arith, length,
  length-drop, take, drop, take-append-drop, Bool-cases, inl, inr,
}
use sancus_core.Base.Int.{ℤ, pos, negsuc, pos_part, leb_ℤ}
use sancus_core.Base.Memory.{Bytes}
use sancus_core.Base.Outcome.{ok}
use sancus_core.Buffer.Inv.{IsValid, contents, room, length-contents}
use sancus_core.Legacy.{skip}
use sancus_core.Legacy.Moves.{skip_lem}
use sancus_core.Sys.{Kernel, pure, ◌>>=◌, close_fd}
use sancus_core.Sys.Rules.{Ensures, >>=-Ensures}
use sancus_core.Sys.Closing.{close_fd-Shut}
use sancus_core.Ev.{Ev}
use sancus_core.Stream.{
  World, Settings, Error, set_watcher, data_of, stop, close, close_stream, skip_read, complain,
}

module _ {W : Type 0} {A : Type 0} where
  -- An application that keeps, besides, the bytes that it has consumed.
  abbrev pub forget : World W (Bytes × A) → World W A
  forget w = record { stream = w.stream; loop = w.loop; app = w.app.1 }

  abbrev pub remember : Bytes → World W A → World W (Bytes × A)
  remember s w = record { stream = w.stream; loop = w.loop; app = (s, w.app) }

  abbrev pub recorded : Settings W A → Settings W (Bytes × A)
  recorded s = record {
    on_error = λ e w. s.on_error e (forget w) >>= λ r. pure (r.0, remember (w.app.0) (r.1));
    on_close = λ w. s.on_close (forget w) >>= λ w'. pure (remember (w.app.0) w');
    on_read = λ text w. s.on_read text (forget w) >>= λ r.
        pure (r.0, remember (w.app.0 ++ take (pos_part (r.0)) text) (r.1));
  }

  -- Callbacks that fail no assertion, and leave the buffer to the library.
  abbrev pub Careful : Settings W A → Type 0
  Careful s =
      ((e : Error) (w : World W A) (k : Kernel)
        → Ensures (λ r k'. r.1.stream.read_buffer ≡ w.stream.read_buffer) (s.on_error e w k))
      × ((w : World W A) (k : Kernel)
          → Ensures (λ w' k'. w'.stream.read_buffer ≡ w.stream.read_buffer) (s.on_close w k))
      × ((text : Bytes) (w : World W A) (k : Kernel)
          → Ensures (λ r k'. r.1.stream.read_buffer ≡ w.stream.read_buffer) (s.on_read text w k))

-- The buffer is valid, and what was consumed and what it holds make up `total`.
abbrev pub Holding : {W A : Type 0} → Bytes → World W (Bytes × A) → Type 0
Holding total w = IsValid w.stream.read_buffer × (w.app.0 ++ contents w.stream.read_buffer ≡ total)

abbrev pub Flows : {W A : Type 0} → Bytes → Option (World W (Bytes × A)) → Kernel → Type 0
Flows {W = W} {A = A} total r k = (w : World W (Bytes × A)) × (r ≡ some w) × Holding total w

-- The same buffer and the same consumed bytes.
pub Holding-same :
    {W A : Type 0} (total : Bytes) (w w' : World W (Bytes × A))
    → w'.stream.read_buffer ≡ w.stream.read_buffer
    → w'.app.0 ≡ w.app.0
    → Holding total w
    → Holding total w'
Holding-same total w w' e f h = rw (e, f) h

module _ {W : Type 0} (ev : Ev W) {A : Type 0} (s : Settings W A) (careful : Careful s) where
  pub stop-Holding :
      (total : Bytes) (w : World W (Bytes × A))
      → Holding total w
      → Holding total (stop ev (recorded s) w)
  unfolding stop
  stop-Holding total w h = elim (Bool-cases (ev.is_active w.stream.read_watcher)) [
    | inl e ↦ rw e h
    | inr e ↦ rw e h
  ]

  on_close-Holding :
      (total : Bytes) (w : World W (Bytes × A)) (k : Kernel)
      → Holding total w
      → Ensures (λ w' k'. Holding total w') ((recorded s).on_close w k)
  on_close-Holding total w k h =
      >>=-Ensures _ _ (s.on_close (forget w) k) _ (careful.1 (forget w) k)
        (λ w' k' e. Holding-same total w (remember (w.app.0) w') e refl h)

  pub close-Holding :
      (total : Bytes) (w : World W (Bytes × A)) (k : Kernel)
      → Holding total w
      → Ensures (λ w' k'. Holding total w') (close ev (recorded s) w k)
  unfolding close
  close-Holding total w k h =
      let io : W = w.stream.read_watcher in
      elim (Bool-cases (leb_ℤ (pos 0) (ev.fd io) && not (ev.is_active io))) [
        | inl e ↦ rw e (
            >>=-Ensures _ _ (close_fd (ev.fd io) k) _ (close_fd-Shut (ev.fd io) k) (λ rc k' shut.
              on_close-Holding total (set_watcher (ev.with_fd (negsuc 0) io) w) k' h))
        | inr e ↦ rw e h
      ]

  pub close_stream-Flows :
      (total : Bytes) (w : World W (Bytes × A)) (k : Kernel)
      → Holding total w
      → Ensures (Flows total) (close_stream ev (recorded s) w k)
  unfolding close_stream
  close_stream-Flows total w k h =
      >>=-Ensures _ _ (close ev (recorded s) (stop ev (recorded s) w) k) _
        (close-Holding total (stop ev (recorded s) w) k (stop-Holding total w h))
        (λ w' k' g. (w', refl, g))

  pub complain-Flows :
      (total : Bytes) (e : Error) (w : World W (Bytes × A)) (k : Kernel)
      → Holding total w
      → Ensures (Flows total) (complain ev (recorded s) e w k)
  unfolding complain
  complain-Flows total e w k h =
      >>=-Ensures _ _ ((recorded s).on_error e w k) _
        (>>=-Ensures _ (λ r k'. Holding total (r.1)) (s.on_error e (forget w) k) _
          (careful.0 e (forget w) k)
          (λ r k' g. Holding-same total w (remember (w.app.0) (r.1)) g refl h))
        (λ r k' g. elim (Bool-cases (r.0)) [
          | inl y ↦ rw y (close_stream-Flows total (r.1) k' g)
          | inr y ↦ rw y (r.1, refl, g)
        ])

  -- What is behind a call of `on_read` that returned `l`: so much more was consumed.
  abbrev pub Consumed : Bytes → World W (Bytes × A) → ℤ × World W (Bytes × A) → Type 0
  Consumed total w r =
      (r.1.stream.read_buffer ≡ w.stream.read_buffer)
      × (r.1.app.0 ≡ w.app.0 ++ take (pos_part (r.0)) (data_of w))

  pub on_read-Consumed :
      (total : Bytes) (w : World W (Bytes × A)) (k : Kernel)
      → Ensures (λ r k'. Consumed total w r) ((recorded s).on_read (data_of w) w k)
  on_read-Consumed total w k =
      >>=-Ensures _ _ (s.on_read (data_of w) (forget w) k) _ (careful.2 (data_of w) (forget w) k)
        (λ r k' e. (e, refl))

  -- What was consumed is dropped.
  pub skip_read-Holding :
      (total : Bytes) (n : ℕ) (w : World W (Bytes × A)) (r : World W (Bytes × A)) (k : Kernel)
      → Holding total w
      → r.stream.read_buffer ≡ w.stream.read_buffer
      → r.app.0 ≡ w.app.0 ++ take n (data_of w)
      → Ensures
          (λ w' k'. Holding total w' × (w'.stream.read_buffer.len ≡ w.stream.read_buffer.len - n))
          (skip_read ev (recorded s) n r k)
  skip_read-Holding total n w r k (v, all) e f =
      let (b, went, holds) = skip_lem n v in
      let same : skip r.stream.read_buffer n ≡ ok (room b, b) = ap (λ b'. skip b' n) e ∙ went in
      rw same (
        (
          holds.valid,
          rw (f, holds.data_eq)
              (append_assoc (w.app.0) (take n (contents w.stream.read_buffer))
                  (drop n (contents w.stream.read_buffer))
                ∙ ap (λ t. w.app.0 ++ t) (take-append-drop n (contents w.stream.read_buffer))
                ∙ all),
        ),
        omega (
          arith,
          sym (length-contents holds.valid),
          ap length holds.data_eq,
          length-drop n (contents w.stream.read_buffer),
          length-contents v,
        ),
      )
