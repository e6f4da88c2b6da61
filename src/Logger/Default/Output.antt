-- ===== src/Logger/Default/Output.antt =====
-- What a message that comes to the default back end makes of its descriptor.
use sancus_core.Base.{
  ℕ, ◌+◌, ◌^◌, ◌<◌, Bool, true, false, Option, none, some, List, [], ◌∷◌, ◌++◌, ◌==◌, ◌≡◌, refl,
  sym, ap, ◌∙◌, arith, length, lt→ltb, ltb,
}
use sancus_core.Base.Int.{ℤ, pos, neg_ℕ}
use sancus_core.Base.Memory.{Bytes}
use sancus_core.Base.Outcome.{Outcome, ok}
use sancus_core.Buffer.{Buffer, appendv, Printer}
use sancus_core.Buffer.Inv.{IsValid, contents, room, Extends, length-contents}
use sancus_core.Buffer.Chunk.{Prints}
use sancus_core.Buffer.Print.{appendv_lem, printed, printed_reply}
use sancus_core.Fd.{Answer, done, fail, eintr}
use sancus_core.Time.{Timespec}
use sancus_core.Logger.{fresh}
use sancus_core.Logger.Default.{
  Formats, Times, stamp, prelude, times_print, level_print, write_line, write_with, fd_logger_write,
}
use sancus_core.Logger.Default.Lines.{line}
use sancus_core.Logger.Default.Writes.{Interrupted, write_line_lem, write_line_failed}

fresh-IsValid : IsValid (fresh 64)
fresh-IsValid = record {
  extent = omega arith;
  backed = refl;
  small = omega arith;
  positive = omega arith;
}

-- Formatted output that fits.
appended :
    (b : Buffer) (print : Printer) (text : Bytes)
    → IsValid b
    → Prints print text
    → length text < room b
    → (b' : Buffer) × (appendv (some b) false print ≡ ok (pos (length text), some b'))
      × Extends b text b'
appended b print text v p h =
    let (b', e, x) = appendv_lem false print text v p in
    (b', e ∙ ap (λ (n : ℤ). ok (n, some b')) reply_fits, rw kept_whole at x)
  where
    fits : ltb (length text) (room b) ≡ true
    fits = lt→ltb (length text) (room b) h

    some_room : (room b == 0) ≡ false
    some_room = ground arith

    reply_fits : printed_reply (room b) false text ≡ pos (length text)
    reply_fits = rw (some_room, fits)

    kept_whole : printed (room b) false text ≡ text
    kept_whole = rw fits

-- A buffer that holds a text.
abbrev pub Holds : Outcome (Option Buffer) → Bytes → Type 0
Holds o text = (b : Buffer) × (o ≡ ok (some b)) × IsValid b × (contents b ≡ text)

module _ (formats : Formats) (level : ℕ) (name : Bytes)
    (p : Prints (level_print formats level) name) where
  prelude_untimed : length name < 64 → Holds (prelude formats none level) name
  unfolding prelude
  prelude_untimed h =
      let (b, e, x) = appended (fresh 64) (level_print formats level) name fresh-IsValid p h in
      (b, rw e, x.valid, x.data_eq)

  prelude_timed :
      (times : Timespec × Timespec) (t : Bytes)
      → Prints (times_print formats times) t
      → length t + length name < 64
      → Holds (prelude formats (some times) level) (t ++ name)
  unfolding prelude
  prelude_timed times t q h =
      let (b, e, x) =
        appended (fresh 64) (times_print formats times) t fresh-IsValid q (omega arith) in
      let (b', e', x') = appended b (level_print formats level) name x.valid p (
        omega (
          arith,
          length-contents x.valid,
          x.size_eq,
          x.base_eq,
          ap (λ (s : Bytes). length s) x.data_eq,
        )) in
      (b', rw (e, e'), x'.valid, x'.data_eq ∙ ap (λ (s : Bytes). s ++ name) x.data_eq)

-- What stands in front of a message.
abbrev pub heading : Bool → Bytes → Bytes → Bytes
heading true t name = t ++ name
heading false t name = name

-- The times that a write leaves.
abbrev pub times_after : Bool → Times → Timespec → Times
times_after true s now = (stamp s now).1
times_after false s now = s

module _ (formats : Formats) (answers : List Answer) (level : ℕ) (prefix msg extra : Bytes) where
  write_with_lem :
      (times : Option (Timespec × Timespec)) (s : Times) (head : Bytes) (out : Option (ℤ × Bytes))
      → Holds (prelude formats times level) head
      → ((b : Buffer)
          → IsValid b
          → contents b ≡ head
          → write_line answers prefix msg extra (some b) ≡ ok out)
      → write_with formats answers level prefix msg extra times s ≡ ok (out, s)
  unfolding write_with
  write_with_lem times s head out (b, e, v, c) writes = rw (e, writes b v c)

  -- The prelude, and what comes of it.
  fd_logger_write-head :
      (fd : ℤ) (stamped : Bool) (s : Times) (now : Timespec) (t name : Bytes)
      (out : Option (ℤ × Bytes))
      → Prints (level_print formats level) name
      → Prints (times_print formats (stamp s now).0) t
      → length t + length name < 64
      → ((b : Buffer)
          → IsValid b
          → contents b ≡ heading stamped t name
          → write_line answers prefix msg extra (some b) ≡ ok out)
      → fd_logger_write formats answers level prefix msg extra
          (some (record { fd = fd; timestamp = stamped }))
          s
          now
        ≡ ok (out, times_after stamped s now)
  unfolding fd_logger_write
  fd_logger_write-head fd true s now t name out p q small writes =
      write_with_lem (some (stamp s now).0) (stamp s now).1 (t ++ name) out
        (prelude_timed formats level name p (stamp s now).0 t q small) writes
  fd_logger_write-head fd false s now t name out p q small writes =
      write_with_lem none s name out (prelude_untimed formats level name p (omega arith)) writes

-- Where the prelude fits its 64 bytes and the kernel takes all bytes in one write, behind any number
-- of interruptions, the back end writes the times, if they are wanted, the level, the texts that are
-- not empty with ": " between them, and a line feed; it returns how many bytes these are, and keeps
-- the time for the next write.
pub fd_logger_write_lem :
    (formats : Formats) (fd : ℤ) (stamped : Bool) (s : Times) (now : Timespec) (level : ℕ)
    (prefix msg extra t name : Bytes) (breaks rest : List Answer)
    → Prints (level_print formats level) name
    → Prints (times_print formats (stamp s now).0) t
    → length t + length name < 64
    → Interrupted breaks
    → length (line (heading stamped t name) prefix msg extra) < 2 ^ 31
    → fd_logger_write formats
        (breaks ++ (done (length (line (heading stamped t name) prefix msg extra)) ∷ rest))
        level
        prefix
        msg
        extra
        (some (record { fd = fd; timestamp = stamped }))
        s
        now
      ≡ ok (
        some (
          pos (length (line (heading stamped t name) prefix msg extra)),
          line (heading stamped t name) prefix msg extra,
        ),
        times_after stamped s now,
      )
fd_logger_write_lem formats fd stamped s now level prefix msg extra t name breaks rest p q small h
      k =
    fd_logger_write-head formats _ level prefix msg extra fd stamped s now t name _ p q small
      (λ b v c. rw (sym c) (write_line_lem b prefix msg extra breaks rest v h (rw c k)))

-- Where the write fails for another reason than an interruption, the back end returns the negated
-- error, and has written nothing.
pub fd_logger_write_failed :
    (formats : Formats) (fd : ℤ) (stamped : Bool) (s : Times) (now : Timespec) (level : ℕ)
    (prefix msg extra t name : Bytes) (breaks rest : List Answer) (e : ℕ)
    → Prints (level_print formats level) name
    → Prints (times_print formats (stamp s now).0) t
    → length t + length name < 64
    → Interrupted breaks
    → (e == eintr) ≡ false
    → e < 2 ^ 31
    → fd_logger_write formats
        (breaks ++ (fail e ∷ rest))
        level
        prefix
        msg
        extra
        (some (record { fd = fd; timestamp = stamped }))
        s
        now
      ≡ ok (some (neg_ℕ e, []), times_after stamped s now)
fd_logger_write_failed formats fd stamped s now level prefix msg extra t name breaks rest e p q
      small h k l =
    fd_logger_write-head formats _ level prefix msg extra fd stamped s now t name _ p q small
      (λ b v c. write_line_failed b prefix msg extra breaks rest v h e k l)
