-- ===== src/Stream/Events.antt =====
-- Any event on a stream, and the operations that are called between events.
use sancus_core.Base.{
  ℕ, zero, suc, ◌≤◌, ◌<◌, Bool, true, false, Option, none, some, List, [], ◌++◌, append-nil,
  append_assoc, ◌≡◌, refl, sym, ap, ◌∙◌, ◌==◌, arith, length, take, Bool-cases, inl, inr,
  if◌then◌else◌,
}
use sancus_core.Base.Int.{ℤ, pos, negsuc, pos_part}
use sancus_core.Base.Memory.{Bytes}
use sancus_core.Buffer.{Buffer}
use sancus_core.Buffer.Append.{Extends-refl}
use sancus_core.Buffer.Inv.{IsValid, contents, room, Extends}
use sancus_core.Fd.{Answer}
use sancus_core.Fd
use sancus_core.Legacy.{available}
use sancus_core.Legacy
use sancus_core.Sys.{Kernel, Result, returns, waits, aborts}
use sancus_core.Sys.Rules.{Ensures, >>=-Ensures}
use sancus_core.Ev.{Ev, has}
use sancus_core.Stream.{
  World, Settings, Error, read_full, fill, set_buffer, make_room, try_read, read_cb, taken_in,
  roomy,
}
use sancus_core.Stream.Fill.{fill-pos}
use sancus_core.Stream.Flow.{
  forget, remember, Careful, Holding, Flows, Holding-same, recorded, close_stream-Flows,
}
use sancus_core.Stream.Reads.{taken_in-Flows}

-- How many bytes a read gets.
abbrev pub got : Option (ℤ × List Answer) → ℕ
got none = 0
got (some (l, left)) = pos_part l

-- What an event adds to the bytes that have come.
abbrev pub incoming : {W : Type 0} → Ev W → ℕ → Kernel → Bytes → Bytes
incoming ev revents k arrived =
    if has revents ev.read_bit then take (got (Fd.read k.answers)) arrived else []

fill-Extends :
    {b : Buffer} (v : IsValid b) (arrived : Bytes) (k : Kernel) (a : Option (ℤ × List Answer))
    → Fd.read k.answers ≡ a
    → got a ≤ room b
    → got a ≤ length arrived
    → Ensures (λ r k'. Extends b (take (got a) arrived) (r.1)) (fill arrived b k)
unfolding fill Legacy.read
fill-Extends v arrived k none e h l = rw e tt
fill-Extends v arrived k (some (pos n, left)) e h l =
    let (went, ext) = fill-pos v arrived left n k e h l in rw went ext
fill-Extends v arrived k (some (negsuc m, left)) e h l = rw (Legacy.read, e) (Extends-refl v)

-- What holds where there is a result.
abbrev pub FlowsIf : {W A : Type 0} → Bytes → Option (World W (Bytes × A)) → Type 0
FlowsIf total none = Unit
FlowsIf total (some w) = Holding total w

abbrev Shut : {W A : Type 0} → Bytes → Option (Bool × World W (Bytes × A)) → Type 0
Shut total none = Unit
Shut total (some (true, w)) = ⊥
Shut total (some (false, w)) = Holding total w

Flows-FlowsIf :
    {W A : Type 0} (total : Bytes) (r : Result (Option (World W (Bytes × A))))
    → Ensures (Flows total) r
    → Ensures (λ r' k'. FlowsIf total r') r
Flows-FlowsIf total (returns r' k') (w, e, h) = rw e h
Flows-FlowsIf total waits h = tt
Flows-FlowsIf total aborts h = h

module _ {W : Type 0} (ev : Ev W) {A : Type 0} (s : Settings W A) (careful : Careful s) where
  on_error-Holding :
      (total : Bytes) (e : Error) (w : World W (Bytes × A)) (k : Kernel)
      → Holding total w
      → Ensures
          (λ r k'. (r.1.stream.read_buffer ≡ w.stream.read_buffer) × Holding total (r.1))
          ((recorded s).on_error e w k)
  on_error-Holding total e w k h =
      >>=-Ensures _ _ (s.on_error e (forget w) k) _ (careful.0 e (forget w) k)
        (λ r k' same. (same, Holding-same total w (remember (w.app.0) (r.1)) same refl h))

  -- A full buffer stays full: the loop does not end, or the stream is to be closed.
  make_room-Shut :
      (fuel : ℕ) (total : Bytes) (w : World W (Bytes × A)) (k : Kernel)
      → (available w.stream.read_buffer == 0) ≡ true
      → Holding total w
      → Ensures (λ r k'. Shut total r) (make_room ev (recorded s) fuel w k)
  unfolding make_room
  make_room-Shut zero total w k full h = tt
  make_room-Shut (suc fuel) total w k full h = rw full (
      >>=-Ensures _ _ ((recorded s).on_error read_full w k) _
        (on_error-Holding total read_full w k h)
        (λ r k' kept. elim (Bool-cases (r.0)) [
          | inl y ↦ rw y (kept.1)
          | inr y ↦ rw y (
              make_room-Shut fuel total (r.1) k' (ap (λ b. available b == 0) (kept.0) ∙ full)
                (kept.1))
        ]))

  roomy-FlowsIf :
      (fuel : ℕ) (arrived total : Bytes) (r : Option (Bool × World W (Bytes × A))) (k : Kernel)
      → Shut total r
      → Ensures (λ r' k'. FlowsIf total r') (roomy ev (recorded s) fuel arrived r k)
  roomy-FlowsIf fuel arrived total none k h = tt
  roomy-FlowsIf fuel arrived total (some (true, w)) k h = absurd h
  roomy-FlowsIf fuel arrived total (some (false, w)) k h =
      Flows-FlowsIf total _ (close_stream-Flows ev s careful total w k h)

  try_read-FlowsIf :
      (fuel : ℕ) (arrived total : Bytes) (w : World W (Bytes × A)) (k : Kernel)
      → Holding total w
      → got (Fd.read k.answers) ≤ room w.stream.read_buffer
      → got (Fd.read k.answers) ≤ length arrived
      → w.stream.read_buffer.size < fuel
      → Ensures
          (λ r k'. FlowsIf (total ++ take (got (Fd.read k.answers)) arrived) r)
          (try_read ev (recorded s) fuel arrived w k)
  unfolding try_read
  try_read-FlowsIf fuel arrived total w k (v, all) h l bound =
      >>=-Ensures _ _ (fill arrived w.stream.read_buffer k) _
        (fill-Extends v arrived k (Fd.read k.answers) refl h l)
        (λ r k' x.
          Flows-FlowsIf (total ++ taken)
            (taken_in ev (recorded s) fuel (r.0) (set_buffer (r.1) w) k')
            (taken_in-Flows ev s careful fuel (r.0) (total ++ taken) (set_buffer (r.1) w) k'
              (omega (arith, x.valid.extent, x.size_eq)) (x.valid, grown (r.1) x.data_eq)))
    where
      taken : Bytes
      taken = take (got (Fd.read k.answers)) arrived

      grown :
          (b' : Buffer)
          → contents b' ≡ contents w.stream.read_buffer ++ taken
          → w.app.0 ++ contents b' ≡ total ++ taken
      grown b' e =
          ap (λ (t : Bytes). w.app.0 ++ t) e
          ∙ sym (append_assoc (w.app.0) (contents w.stream.read_buffer) taken)
          ∙ ap (λ (t : Bytes). t ++ taken) all

  -- An event without an error, on a valid buffer with fuel for one step more than its size, where a
  -- read gets no more than there is room for and has arrived: no assertion fails and no access
  -- leaves the array, and what the application has consumed and what is in the buffer afterwards
  -- are what they were and the bytes that were read.
  pub event_lem :
      (fuel revents : ℕ) (arrived total : Bytes) (w : World W (Bytes × A)) (k : Kernel)
      → has revents ev.error_bit ≡ false
      → Holding total w
      → got (Fd.read k.answers) ≤ room w.stream.read_buffer
      → got (Fd.read k.answers) ≤ length arrived
      → w.stream.read_buffer.size < fuel
      → Ensures
          (λ r k'. FlowsIf (total ++ incoming ev revents k arrived) r)
          (read_cb ev (recorded s) fuel arrived revents w k)
  unfolding read_cb make_room
  event_lem zero revents arrived total w k calm holding h l bound = absurd (omega arith)
  event_lem (suc fuel) revents arrived total w k calm holding h l bound =
      elim (Bool-cases (has revents ev.read_bit)) [
        | inr idle ↦ rw (calm, idle, append-nil total) holding
        | inl readable ↦ elim (Bool-cases (available w.stream.read_buffer == 0)) [
          | inl full ↦
              rw (calm, readable, no_bytes full, append-nil total)
                (>>=-Ensures _ _ (make_room ev (recorded s) (suc fuel) w k) _
                  (make_room-Shut (suc fuel) total w k full holding)
                  (λ r k' shut. roomy-FlowsIf (suc fuel) arrived total r k' shut))
          | inr free ↦
              rw (calm, readable, free)
                (try_read-FlowsIf (suc fuel) arrived total w k holding h l bound)
        ]
      ]
    where
      no_bytes : (available w.stream.read_buffer == 0) ≡ true → got (Fd.read k.answers) ≡ 0
      no_bytes full = ground (arith, holding.0.extent, holding.0.small)
