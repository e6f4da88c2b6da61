-- ===== src/Stream/Reads.antt =====
-- An event on a stream, from the buffer that it finds to the one that it leaves.
use sancus_core.Base.{
  ℕ, zero, suc, ◌≤◌, ◌<◌, true, false, Option, some, List, ◌++◌, append-nil, ◌≡◌, refl, ap, ◌∙◌,
  ◌==◌, arith, length, take, Bool-cases, inl, inr,
}
use sancus_core.Base.Int.{ℤ, pos, negsuc}
use sancus_core.Base.Memory.{Bytes}
use sancus_core.Buffer.{Buffer}
use sancus_core.Buffer.Inv.{IsValid, contents, room, Extends}
use sancus_core.Fd.{Answer}
use sancus_core.Fd
use sancus_core.Legacy.{available}
use sancus_core.Sys.{Kernel, Sys}
use sancus_core.Sys.Rules.{Ensures, >>=-Ensures}
use sancus_core.Ev.{Ev, has}
use sancus_core.Stream.{
  World, Settings, read_eof, read_error, fill, set_buffer, data_of, make_room, skip_read, served,
  drain, taken_in, try_read, read_cb,
}
use sancus_core.Stream.Fill.{fill-pos}
use sancus_core.Stream.Flow.{
  Careful, Holding, Flows, Holding-same, recorded, Consumed, close_stream-Flows, complain-Flows,
  on_read-Consumed, skip_read-Holding,
}

-- The buffer that a read leaves.
fill-Grown :
    {b : Buffer} (v : IsValid b) (arrived : Bytes) (left : List Answer) (n : ℕ) (k : Kernel)
    → Fd.read k.answers ≡ some (pos n, left)
    → n ≤ room b
    → n ≤ length arrived
    → Ensures (λ r k'. (r.0 ≡ pos n) × Extends b (take n arrived) (r.1)) (fill arrived b k)
fill-Grown v arrived left n k e h l =
    let (went, ext) = fill-pos v arrived left n k e h l in rw went (refl, ext)

not_zero : (n : ℕ) → (n == 0) ≡ false → 0 < n
not_zero n h = ground arith

pub roomy_before : {b : Buffer} → IsValid b → 0 < room b → (available b == 0) ≡ false
roomy_before {b} v h = ground (arith, v.extent, v.small)

module _ {W : Type 0} (ev : Ev W) {A : Type 0} (s : Settings W A) (careful : Careful s) where
  -- One turn of the loop, where the next ones do what they owe.
  served-Flows :
      (total : Bytes) (w : World W (Bytes × A))
      (again : World W (Bytes × A) → Sys (Option (World W (Bytes × A))))
      (r : ℤ × World W (Bytes × A)) (k : Kernel)
      → 0 < w.stream.read_buffer.len
      → Holding total w
      → Consumed ev s careful total w r
      → ((w' : World W (Bytes × A)) (k' : Kernel)
          → w'.stream.read_buffer.len < w.stream.read_buffer.len
          → Holding total w'
          → Ensures (Flows total) (again w' k'))
      → Ensures (Flows total) (served ev (recorded s) again r k)
  unfolding served
  served-Flows total w again (pos zero, w1) k some_left h (e, f) next =
      (w1, refl, Holding-same total w w1 e (f ∙ append-nil (w.app.0)) h)
  served-Flows total w again (pos (suc n), w1) k some_left h (e, f) next =
      >>=-Ensures _ _ (skip_read ev (recorded s) (suc n) w1 k) _
        (skip_read-Holding ev s careful total (suc n) w w1 k h e f)
        (λ w' k' g. elim (Bool-cases (ev.is_active w'.stream.read_watcher)) [
          | inl y ↦ rw y (next w' k' (omega (arith, g.1)) (g.0))
          | inr y ↦ rw y (w', refl, g.0)
        ])
  served-Flows total w again (negsuc n, w1) k some_left h (e, f) next =
      close_stream-Flows ev s careful total w1 k
        (Holding-same total w w1 e (f ∙ append-nil (w.app.0)) h)

  drain-Flows :
      (fuel : ℕ) (total : Bytes) (w : World W (Bytes × A)) (k : Kernel)
      → w.stream.read_buffer.len < fuel
      → Holding total w
      → Ensures (Flows total) (drain ev (recorded s) fuel w k)
  unfolding drain
  drain-Flows zero total w k bound h = absurd (omega arith)
  drain-Flows (suc fuel) total w k bound h = elim (Bool-cases (w.stream.read_buffer.len == 0)) [
    | inl e ↦ rw e (w, refl, h)
    | inr e ↦ rw e (
        >>=-Ensures (λ r k'. Consumed ev s careful total w r) (Flows total)
          ((recorded s).on_read (data_of w) w k) _ (on_read-Consumed ev s careful total w k)
          (λ r k' c.
            served-Flows total w (λ w'. drain ev (recorded s) fuel w') r k' (not_zero _ e) h c
              (λ w' k'' less g. drain-Flows fuel total w' k'' (omega arith) g)))
  ]

  pub taken_in-Flows :
      (fuel : ℕ) (l : ℤ) (total : Bytes) (w : World W (Bytes × A)) (k : Kernel)
      → w.stream.read_buffer.len < fuel
      → Holding total w
      → Ensures (Flows total) (taken_in ev (recorded s) fuel l w k)
  unfolding taken_in
  taken_in-Flows fuel (pos zero) total w k bound h =
      complain-Flows ev s careful total read_eof w k h
  taken_in-Flows fuel (pos (suc n)) total w k bound h = drain-Flows fuel total w k bound h
  taken_in-Flows fuel (negsuc n) total w k bound h = elim (Bool-cases (k.errno == 11)) [
    | inl e ↦ rw e (w, refl, h)
    | inr e ↦ rw e (complain-Flows ev s careful total read_error w k h)
  ]

  -- An event for reading that finds room in a valid buffer, with callbacks that fail no assertion
  -- and leave the buffer alone, a kernel that reads `n` bytes of those that have arrived, at most
  -- as many as there is room for, and fuel for one step more than the buffer's size: the event goes
  -- through without a failed assertion or an access outside the array, the buffer is valid, and
  -- what the application has consumed and what is in the buffer are what they were and the `n`
  -- bytes, in their order.
  pub read_cb_lem :
      (fuel n revents : ℕ) (arrived : Bytes) (left : List Answer) (w : World W (Bytes × A))
      (k : Kernel)
      → has revents ev.error_bit ≡ false
      → has revents ev.read_bit ≡ true
      → IsValid w.stream.read_buffer
      → 0 < room w.stream.read_buffer
      → Fd.read k.answers ≡ some (pos n, left)
      → n ≤ room w.stream.read_buffer
      → n ≤ length arrived
      → w.stream.read_buffer.size < fuel
      → Ensures
          (Flows (w.app.0 ++ (contents w.stream.read_buffer ++ take n arrived)))
          (read_cb ev (recorded s) fuel arrived revents w k)
  unfolding read_cb make_room try_read
  read_cb_lem zero n revents arrived left w k calm readable v free e h l bound =
      absurd (omega arith)
  read_cb_lem (suc fuel) n revents arrived left w k calm readable v free e h l bound =
      rw (calm, readable, roomy_before v free)
        (>>=-Ensures _ _ (fill arrived w.stream.read_buffer k) _
          (fill-Grown v arrived left n k e h l)
          (λ r k' g. rw (g.0) (
            taken_in-Flows (suc fuel) (pos n) _ (set_buffer (r.1) w) k'
              (omega (arith, g.1.valid.extent, g.1.size_eq))
              (g.1.valid, ap (λ t. w.app.0 ++ t) g.1.data_eq))))
