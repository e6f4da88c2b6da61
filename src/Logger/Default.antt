-- ===== src/Logger/Default.antt =====
-- The back end of src/sancus/logger.c that writes to a descriptor, and the back end that is the
-- default. The time is an argument, and so is what `vsnprintf` makes of the prelude's formats. One
-- thread writes: the mutex is not modelled.
pub mod Stamps
pub mod Lines
pub mod Writes
pub mod Output
mod Tests
use sancus_core.Base.{
  ℕ, Bool, true, false, ◌&&◌, ◌||◌, Option, none, some, List, [], ◌∷◌, ◌++◌, ◌==◌, ltb,
  if◌then◌else◌, length, get_or,
}
use sancus_core.Base.Int.{ℤ, pos, neg, quot, ltb_ℤ}
use sancus_core.Base.Memory.{Bytes}
use sancus_core.Base.Outcome.{Outcome, ok, fault, ◌>>=◌}
use sancus_core.Base.Word.{einval}
use sancus_core.Buffer.{Buffer, Printer, appendv}
use sancus_core.Fd.{Answer, Iovec, writev}
use sancus_core.Time.{Timespec, ms_ns, is_zero, is_lt, sub2, zero_ts, to_int}
use sancus_core.Logger.{Backend, colon, fresh}

-- `sancus_logger_set_default_backend`: the result, and what `default_backend` is then.
unfoldable pub set_default_backend : Option Backend → Backend → Backend → ℤ × Backend
set_default_backend none fd_backend current = (pos 0, fd_backend)
set_default_backend (some b) fd_backend current = elim b.f [
  | none ↦ (einval, current)
  | some f ↦ (pos 0, b)
]

-- `struct sancus_logger_fd_backend_data`
pub record Data : Type 0 where
  pub fd : ℤ
  pub timestamp : Bool

-- `sancus_logger_set_fd_backend`
unfoldable pub set_fd_backend : ℤ → Data → ℤ × Data
set_fd_backend fd d = if ltb_ℤ fd (pos 0) then (einval, d) else (pos 0, record d { fd = fd })

-- The static times of `fd_logger_write`, zero at first.
pub record Times : Type 0 where
  pub first : Timespec
  pub prev : Timespec

-- `dt0` and `dt1` of a write at the time `ts`, and the times that it leaves.
unfoldable pub stamp : Times → Timespec → (Timespec × Timespec) × Times
stamp s ts =
    if is_zero s.prev || is_lt ts s.first
    then ((zero_ts, zero_ts), record { first = ts; prev = ts })
    else ((sub2 ts s.first, sub2 ts s.prev), record { first = s.first; prev = ts })

-- `TIMESPEC_SPLIT_MS`: whether there is a sign, the seconds and the milliseconds.
unfoldable pub split_ms : Timespec → Bool × ℤ × ℤ
split_ms t =
    (ltb_ℤ t.nsec (pos 0), t.sec, quot (if ltb_ℤ t.nsec (pos 0) then neg t.nsec else t.nsec) ms_ns)

-- `vsnprintf` of the formats of the prelude: the times, "%c/" and "%u/".
pub record Formats : Type 0 where
  pub times : Bool × ℤ × ℤ → Bool × ℤ × ℤ → Printer
  pub letter : ℕ → Printer
  pub number : ℕ → Printer

-- `levels`, with its NUL.
abbrev pub levels : Bytes
levels = 69 ∷ 87 ∷ 73 ∷ 84 ∷ 68 ∷ 0 ∷ []

abbrev pub level_print : Formats → ℕ → Printer
level_print formats level =
    if ltb level (length levels)
    then formats.letter (get_or levels level 0)
    else formats.number level

abbrev pub times_print : Formats → Timespec × Timespec → Printer
times_print formats (dt0, dt1) = formats.times (split_ms dt0) (split_ms dt1)

-- The prelude: the times where they are wanted, and the level.
unfoldable pub prelude : Formats → Option (Timespec × Timespec) → ℕ → Outcome (Option Buffer)
prelude formats none level =
    appendv (some (fresh 64)) false (level_print formats level) >>= λ r. ok r.1
prelude formats (some times) level = do
  (rc, timed) ← appendv (some (fresh 64)) false (times_print formats times)
  (rc', levelled) ← appendv timed false (level_print formats level)
  ok levelled

-- `log_iov` and `log_iov2`
abbrev pub log_iov : Bytes → Iovec
log_iov s = record { memory = s; offset = 0; len = length s }

abbrev pub log_iov2 : Buffer → Iovec
log_iov2 b = record { memory = b.buf; offset = b.base; len = b.len }

-- The entries of `iov`, from the prefix, the message and the data on; a length of 0 stands for none.
abbrev pub prefix_part : Bytes → ℕ → ℕ → List Iovec
prefix_part prefix mlen dlen =
    if length prefix == 0
    then []
    else if (mlen == 0) && (dlen == 0)
    then log_iov prefix ∷ []
    else log_iov prefix ∷ log_iov colon ∷ []

abbrev pub msg_part : Bytes → ℕ → List Iovec
msg_part msg dlen =
    if length msg == 0
    then []
    else if dlen == 0
    then log_iov msg ∷ []
    else log_iov msg ∷ log_iov colon ∷ []

abbrev pub extra_part : Bytes → List Iovec
extra_part extra = if length extra == 0 then [] else log_iov extra ∷ []

unfoldable pub entries : Iovec → Bytes → Bytes → Bytes → List Iovec
entries head prefix msg extra =
    (head ∷ [])
    ++ (prefix_part prefix (length msg) (length extra)
        ++ (msg_part msg (length extra) ++ (extra_part extra ++ (log_iov (10 ∷ []) ∷ []))))

-- `(int)sancus_writev(ctx->fd, iov, iovcnt)`, and the bytes that the kernel took.
abbrev pub written : Option (ℤ × Bytes) → Option (ℤ × Bytes)
written none = none
written (some (rc, out)) = some (to_int rc, out)

-- The end of `fd_logger_write`, where there is a prelude.
unfoldable pub write_line :
    List Answer → Bytes → Bytes → Bytes → Option Buffer → Outcome (Option (ℤ × Bytes))
write_line answers prefix msg extra none = fault
write_line answers prefix msg extra (some b) =
    let iov = entries (log_iov2 b) prefix msg extra in
    ok (written (writev answers iov (pos (length iov))))

-- `fd_logger_write`, at a time and with the answers that the kernel is going to give; `write_with`
-- is what it does behind the times, which it leaves as they are given.
module _ (formats : Formats) (answers : List Answer) (level : ℕ) (prefix msg extra : Bytes) where
  unfoldable pub write_with :
      Option (Timespec × Timespec) → Times → Outcome (Option (ℤ × Bytes) × Times)
  write_with times s = do
    head ← prelude formats times level
    out ← write_line answers prefix msg extra head
    ok (out, s)

  unfoldable pub fd_logger_write :
      Option Data → Times → Timespec → Outcome (Option (ℤ × Bytes) × Times)
  unfolding write_with
  fd_logger_write none s now = ok (some (einval, []), s)
  fd_logger_write (some ctx) s now =
      if ctx.timestamp then write_with (some (stamp s now).0) (stamp s now).1 else write_with none s
