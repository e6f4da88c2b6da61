-- ===== src/Stream/Story.antt =====
-- The life of a stream: events, the operations, and what the application does in between.
use sancus_core.Base.{
  ℕ, zero, suc, ◌<◌, ◌≤◌, false, some, [], ◌++◌, append-nil, append_assoc, ◌≡◌, sym, ◌∙◌, ◌==◌,
  length, Bool-cases, inl, inr,
}
use sancus_core.Base.Int.{ℤ, pos, negsuc}
use sancus_core.Base.Memory.{Bytes}
use sancus_core.Buffer.Inv.{IsValid, contents, room}
use sancus_core.Fd
use sancus_core.Sys.{Kernel, returns}
use sancus_core.Sys.Rules.{Ensures, Partially, >>=-Ensures}
use sancus_core.Ev.{Ev, has}
use sancus_core.Stream.{
  World, Settings, data_of, skip_read, skipped, read_cb, process, start, stop, close,
}
use sancus_core.Stream.Flow.{
  Careful, Holding, Holding-same, recorded, Consumed, on_read-Consumed, skip_read-Holding,
  stop-Holding, close-Holding,
}
use sancus_core.Stream.Events.{got, incoming, event_lem}

-- What an event without an error may meet: fuel for the buffer, and a read that gets no more than
-- there is room for and has arrived.
pub record Meets {W : Type 0} (ev : Ev W) {A : Type 0} (fuel revents : ℕ) (arrived : Bytes)
    (w : World W A) (k : Kernel) : Type 0 where
  pub calm : has revents ev.error_bit ≡ false
  pub fits : got (Fd.read k.answers) ≤ room w.stream.read_buffer
  pub here : got (Fd.read k.answers) ≤ length arrived
  pub enough : w.stream.read_buffer.size < fuel

-- From a stream at the start to what it is, and the bytes that have come since. The kernel may be in
-- any state at a step.
pub data Reached {W : Type 0} (ev : Ev W) {A : Type 0} (s : Settings W A)
    (begin : World W (Bytes × A)) : Bytes → World W (Bytes × A) → Type 0 where
  begun : Reached ev s begin [] begin
  event :
      {w' : World W (Bytes × A)} (come : Bytes) (w : World W (Bytes × A)) (k k' : Kernel)
      (fuel revents : ℕ) (arrived : Bytes)
      → Reached ev s begin come w
      → Meets ev fuel revents arrived w k
      → read_cb ev (recorded s) fuel arrived revents w k ≡ returns (some w') k'
      → Reached ev s begin (come ++ incoming ev revents k arrived) w'
  processed :
      {come : Bytes} {w' : World W (Bytes × A)} (w : World W (Bytes × A)) (k k' : Kernel) (rc : ℤ)
      → Reached ev s begin come w
      → process ev (recorded s) w k ≡ returns (rc, w') k'
      → Reached ev s begin come w'
  started :
      {come : Bytes} {w' : World W (Bytes × A)} (w : World W (Bytes × A)) (k k' : Kernel)
      → Reached ev s begin come w
      → start ev (recorded s) w k ≡ returns w' k'
      → Reached ev s begin come w'
  stopped :
      {come : Bytes} (w : World W (Bytes × A))
      → Reached ev s begin come w
      → Reached ev s begin come (stop ev (recorded s) w)
  closed :
      {come : Bytes} {w' : World W (Bytes × A)} (w : World W (Bytes × A)) (k k' : Kernel)
      → Reached ev s begin come w
      → close ev (recorded s) w k ≡ returns w' k'
      → Reached ev s begin come w'
  elsewhere :
      {come : Bytes} {w' : World W (Bytes × A)} (w : World W (Bytes × A))
      → Reached ev s begin come w
      → w'.stream.read_buffer ≡ w.stream.read_buffer
      → w'.app.0 ≡ w.app.0
      → Reached ev s begin come w'

module _ {W : Type 0} (ev : Ev W) {A : Type 0} (s : Settings W A) (careful : Careful s) where
  skipped-Holding :
      (total : Bytes) (w : World W (Bytes × A)) (r : ℤ × World W (Bytes × A)) (k : Kernel)
      → Holding total w
      → Consumed ev s careful total w r
      → Ensures (λ r' k'. Holding total (r'.1)) (skipped ev (recorded s) r k)
  unfolding skipped
  skipped-Holding total w (pos zero, w1) k h (e, f) =
      Holding-same total w w1 e (f ∙ append-nil (w.app.0)) h
  skipped-Holding total w (pos (suc n), w1) k h (e, f) =
      >>=-Ensures _ (λ r' k'. Holding total (r'.1)) (skip_read ev (recorded s) (suc n) w1 k) _
        (skip_read-Holding ev s careful total (suc n) w w1 k h e f) (λ w' k' g. g.0)
  skipped-Holding total w (negsuc n, w1) k h (e, f) =
      Holding-same total w w1 e (f ∙ append-nil (w.app.0)) h

  process-Holding :
      (total : Bytes) (w : World W (Bytes × A)) (k : Kernel)
      → Holding total w
      → Ensures (λ r k'. Holding total (r.1)) (process ev (recorded s) w k)
  unfolding process
  process-Holding total w k h = elim (Bool-cases (w.stream.read_buffer.len == 0)) [
    | inl e ↦ rw e h
    | inr e ↦ rw e (
        >>=-Ensures (λ r k'. Consumed ev s careful total w r) (λ r k'. Holding total (r.1))
          ((recorded s).on_read (data_of w) w k) _ (on_read-Consumed ev s careful total w k)
          (λ r k' c. skipped-Holding total w r k' h c))
  ]

  start-Holding :
      (total : Bytes) (w : World W (Bytes × A)) (k : Kernel)
      → Holding total w
      → Partially (λ w' k'. Holding total w') (start ev (recorded s) w k)
  unfolding start
  start-Holding total w k h = elim (Bool-cases (ev.is_active w.stream.read_watcher)) [
    | inl e ↦ rw e tt
    | inr e ↦ rw e h
  ]

  -- From a valid buffer on, a stream that has lived through any events without an error whose reads
  -- get no more than there is room for and has arrived, with fuel for one step more than the
  -- buffer's size, through calls of `sancus_stream_process`, `_start`, `_stop` and `_close` that
  -- return, and through what the application does besides that leaves the buffer and what it has
  -- consumed alone, in any order, with callbacks that fail no assertion and leave the buffer alone:
  -- the buffer is valid, and what the application has consumed, followed by what is in the buffer,
  -- is what they were at the start, followed by the bytes that were read since. No byte is lost,
  -- repeated or put out of order.
  pub reached_lem :
      (begin : World W (Bytes × A)) (w : World W (Bytes × A)) (come : Bytes)
      → IsValid begin.stream.read_buffer
      → Reached ev s begin come w
      → IsValid w.stream.read_buffer
        × (w.app.0 ++ contents w.stream.read_buffer
            ≡ (begin.app.0 ++ contents begin.stream.read_buffer) ++ come)
  reached_lem begin w come v begun = (v, sym (append-nil _))
  reached_lem begin w come v (event c w1 k k' fuel revents arrived r meets e) =
      rw
        (append_assoc (begin.app.0 ++ contents begin.stream.read_buffer) c
          (incoming ev revents k arrived))
        at
        (rw e at (
          event_lem ev s careful fuel revents arrived _ w1 k meets.calm (reached_lem begin w1 c v r)
            meets.fits meets.here meets.enough))
  reached_lem begin w come v (processed w1 k k' rc r e) =
      rw e at (process-Holding _ w1 k (reached_lem begin w1 come v r))
  reached_lem begin w come v (started w1 k k' r e) =
      rw e at (start-Holding _ w1 k (reached_lem begin w1 come v r))
  reached_lem begin w come v (stopped w1 r) =
      stop-Holding ev s careful _ w1 (reached_lem begin w1 come v r)
  reached_lem begin w come v (closed w1 k k' r e) =
      rw e at (close-Holding ev s careful _ w1 k (reached_lem begin w1 come v r))
  reached_lem begin w come v (elsewhere w1 r e f) =
      Holding-same _ w1 w e f (reached_lem begin w1 come v r)
