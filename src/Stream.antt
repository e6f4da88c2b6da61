-- ===== src/Stream.antt =====
-- src/sancus/stream.c and include/sancus/stream.h: streams that are read through the older buffer. The
-- event library is an `Ev`, the application the callbacks of its settings. The two loops run on
-- fuel, and are `none` where that ends. The calls of `read` are not in the log.
pub mod Fill
pub mod Flow
pub mod Reads
pub mod Events
pub mod Story
mod Tests
use sancus_core.Base.{
  ℕ, zero, suc, Bool, true, false, not, ◌&&◌, ◌||◌, Option, none, some, List, ltb, ◌==◌,
  if◌then◌else◌,
}
use sancus_core.Base.Int.{ℤ, pos, negsuc, leb_ℤ}
use sancus_core.Base.Memory.{Bytes, slice}
use sancus_core.Base.Outcome.{Outcome, ok, fault, abort}
use sancus_core.Buffer.{Buffer}
use sancus_core.Fd.{Answer}
use sancus_core.Fd
use sancus_core.Legacy.{available, skip}
use sancus_core.Legacy
use sancus_core.Sys.{
  Kernel, Result, returns, waits, aborts, Sys, pure, ◌>>=◌, ◌>>◌, assert, lift, get_errno, close_fd,
}
use sancus_core.Ev.{Ev, Loop, has, Handler, stream_read}

-- `enum sancus_stream_error`
pub data Error : Type 0 where
  read_error : Error
  read_eof : Error
  read_full : Error

-- `struct sancus_stream`, less the pointer to its settings.
pub record Stream (W : Type 0) : Type 0 where
  pub read_watcher : W
  pub read_buffer : Buffer

-- The stream, the loop and what the application keeps.
pub record World (W : Type 0) (A : Type 0) : Type 0 where
  pub stream : Stream W
  pub loop : Loop
  pub app : A

-- `struct sancus_stream_settings`
pub record Settings (W : Type 0) (A : Type 0) : Type 0 where
  pub on_error : Error → World W A → Sys (Bool × World W A)
  pub on_close : World W A → Sys (World W A)
  pub on_read : Bytes → World W A → Sys (ℤ × World W A)

-- `errno` behind `sancus_read`.
abbrev pub errno_after : ℤ → ℕ → ℕ
errno_after (pos n) e = e
errno_after (negsuc n) e = suc n

-- `sancus_buffer_read`, with the bytes that have arrived.
abbrev pub filled :
    Option (ℤ × List Answer) → Option (Outcome (ℤ × Buffer)) → Kernel → Result (ℤ × Buffer)
filled (some (rc, left)) (some (ok (l, b))) k =
    returns (l, b) (record k { answers = left; errno = errno_after l k.errno })
filled (some (rc, left)) (some fault) k = aborts
filled (some (rc, left)) (some abort) k = aborts
filled (some (rc, left)) none k = waits
filled none r k = waits

unfoldable pub fill : Bytes → Buffer → Sys (ℤ × Buffer)
fill arrived b k = filled (Fd.read k.answers) (Legacy.read b k.answers arrived) k

module _ {W : Type 0} {A : Type 0} where
  abbrev pub set_watcher : W → World W A → World W A
  set_watcher io w = record w { stream = record w.stream { read_watcher = io } }

  abbrev pub set_buffer : Buffer → World W A → World W A
  set_buffer b w = record w { stream = record w.stream { read_buffer = b } }

  -- `sancus_buffer_data` and `sancus_buffer_len`, as the bytes that they give to a callback.
  abbrev pub data_of : World W A → Bytes
  data_of w = slice w.stream.read_buffer.base w.stream.read_buffer.len w.stream.read_buffer.buf

module _ {W : Type 0} (ev : Ev W) {A : Type 0} (settings : Settings W A) where
  -- `sancus_stream_start`
  unfoldable pub start : World W A → Sys (World W A)
  start w = do
    _ ← assert (not (ev.is_active w.stream.read_watcher))
    pure (set_watcher (ev.start w.stream.read_watcher).1 w)

  -- `sancus_stream_stop`
  unfoldable pub stop : World W A → World W A
  stop w =
      if ev.is_active w.stream.read_watcher
      then set_watcher (ev.stop w.stream.read_watcher).1 w
      else w

  -- `sancus_stream_close`
  unfoldable pub close : World W A → Sys (World W A)
  close w =
      let io : W = w.stream.read_watcher in
      if leb_ℤ (pos 0) (ev.fd io) && not (ev.is_active io)
      then (close_fd (ev.fd io) >>= λ _.
          settings.on_close (set_watcher (ev.with_fd (negsuc 0) io) w))
      else pure w

  -- `close_stream`
  unfoldable pub close_stream : World W A → Sys (Option (World W A))
  unfolding close stop
  close_stream w = close (stop w) >>= λ w'. pure (some w')

  -- `read_buffer_available`: is there room, or is the stream to be closed?
  unfoldable pub make_room : ℕ → World W A → Sys (Option (Bool × World W A))
  make_room zero w = pure none
  make_room (suc fuel) w =
      let again : World W A → Sys (Option (Bool × World W A)) = λ w'. make_room fuel w' in
      if available w.stream.read_buffer == 0
      then (settings.on_error read_full w >>= λ r.
          if r.0 then pure (some (false, r.1)) else again (r.1))
      else pure (some (true, w))

  -- `sancus_buffer_skip(buf, l)`
  abbrev pub skip_read : ℕ → World W A → Sys (World W A)
  skip_read n w = lift (skip w.stream.read_buffer n) >>= λ r. pure (set_buffer (r.1) w)

  -- What becomes of a result of `on_read`; the loop goes on with `again`.
  unfoldable pub served :
      (World W A → Sys (Option (World W A))) → ℤ × World W A → Sys (Option (World W A))
  unfolding close_stream
  served again (pos zero, w) = pure (some w)
  served again (pos (suc n), w) = skip_read (suc n) w >>= λ w'.
      if ev.is_active w'.stream.read_watcher then again w' else pure (some w')
  served again (negsuc n, w) = close_stream w

  -- The loop over `on_read`.
  unfoldable pub drain : ℕ → World W A → Sys (Option (World W A))
  unfolding served
  drain zero w = pure none
  drain (suc fuel) w =
      let again : World W A → Sys (Option (World W A)) = λ w'. drain fuel w' in
      if w.stream.read_buffer.len == 0
      then pure (some w)
      else (settings.on_read (data_of w) w >>= served again)

  -- `if (settings->on_error(...)) goto close_stream;`
  unfoldable pub complain : Error → World W A → Sys (Option (World W A))
  unfolding close_stream
  complain e w =
      settings.on_error e w >>= λ r. if r.0 then close_stream (r.1) else pure (some (r.1))

  -- What becomes of a result of `sancus_buffer_read`; `EINTR` does not come back from it, and
  -- `EAGAIN` is 11.
  unfoldable pub taken_in : ℕ → ℤ → World W A → Sys (Option (World W A))
  unfolding drain complain
  taken_in fuel (pos zero) w = complain read_eof w
  taken_in fuel (pos (suc n)) w = drain fuel w
  taken_in fuel (negsuc n) w =
      get_errno >>= λ e. if e == 11 then pure (some w) else complain read_error w

  -- `try_read`
  unfoldable pub try_read : ℕ → Bytes → World W A → Sys (Option (World W A))
  unfolding taken_in fill
  try_read fuel arrived w =
      fill arrived w.stream.read_buffer >>= λ r. taken_in fuel (r.0) (set_buffer (r.1) w)

  -- What follows `read_buffer_available`.
  abbrev pub roomy : ℕ → Bytes → Option (Bool × World W A) → Sys (Option (World W A))
  roomy fuel arrived none = pure none
  roomy fuel arrived (some (true, w)) = try_read fuel arrived w
  roomy fuel arrived (some (false, w)) = close_stream w

  -- `read_cb`
  unfoldable pub read_cb : ℕ → Bytes → ℕ → World W A → Sys (Option (World W A))
  unfolding make_room try_read close_stream
  read_cb fuel arrived revents w =
      assert (not (has revents ev.error_bit))
      >> (if has revents ev.read_bit
          then (make_room fuel w >>= λ r. roomy fuel arrived r)
          else pure (some w))

  -- What is skipped behind `on_read` in `sancus_stream_process`.
  unfoldable pub skipped : ℤ × World W A → Sys (ℤ × World W A)
  skipped (pos zero, w) = pure (pos zero, w)
  skipped (pos (suc n), w) = skip_read (suc n) w >>= λ w'. pure (pos (suc n), w')
  skipped (negsuc n, w) = pure (negsuc n, w)

  -- `sancus_stream_process`
  unfoldable pub process : World W A → Sys (ℤ × World W A)
  unfolding skipped
  process w =
      if w.stream.read_buffer.len == 0
      then pure (pos 0, w)
      else (settings.on_read (data_of w) w >>= skipped)

-- `sancus_stream_init`
unfoldable pub init_stream :
    {W : Type 0} → Ev W → ℤ → Option Bytes → ℕ → Stream W → Sys (ℤ × Stream W)
init_stream ev fd buffer size s =
    assert (leb_ℤ (pos 0) fd)
    >> assert (elim buffer [ none ↦ true | some m ↦ ltb 0 size ])
    >> lift (Legacy.bind buffer size)
    >>= λ b. pure (
      pos 1,
      record {
        read_watcher = (ev.init stream_read fd ev.read_bit s.read_watcher).1;
        read_buffer = b;
      },
    )
