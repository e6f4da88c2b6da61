-- ===== src/Serial.antt =====
-- src/sancus/sancus_serial.c and include/sancus/serial.h: serial ports, over the log of the calls. What
-- `tcgetattr` stores depends on the kernel that answered it, and is an argument, as are
-- `cfsetispeed` and `cfsetospeed`; a pointer is not NULL.
pub mod Apply
pub mod Sessions
pub mod Modes
mod Tests
use Prim.Native.Nat.{bit_and, bit_or}
use sancus_core.Base.{ℕ, ◌-◌, Bool, true, false, ◌&&◌, Option, none, some, map, ◌==◌, if◌then◌else◌}
use sancus_core.Base.Int.{ℤ, pos, negsuc, leb_ℤ}
use sancus_core.Base.Memory.{Bytes, bytes_eq}
use sancus_core.Fd.{Answer, done, fail}
use sancus_core.Sys.{
  Kernel, Result, returns, waits, aborts, Sys, pure, ◌>>=◌, ◌>>◌, assert, get_errno, set_errno,
  Termios, Call, get_tio, set_tio, Entry, syscall, close_fd,
}
use sancus_core.Open.{sancus_open}

-- `struct sancus_serial`
pub record Serial : Type 0 where
  pub fd : ℤ
  pub oldtio : Termios

-- `O_RDWR|O_NOCTTY|O_NONBLOCK`
abbrev pub open_flags : ℕ
open_flags = 0x902

-- `memcmp` of two `struct termios`, as the condition that it is 0.
abbrev pub same_tio : Termios → Termios → Bool
same_tio a b =
    (a.iflag == b.iflag)
    && ((a.oflag == b.oflag)
        && ((a.cflag == b.cflag) && ((a.lflag == b.lflag) && bytes_eq a.rest b.rest)))

-- `init_fail`
unfoldable pub init_fail : Serial → Sys (ℤ × Serial × Option Termios)
init_fail self = do _ ← close_fd self.fd; pure (negsuc 0, record self { fd = negsuc 0 }, none)

module _ (stored : Kernel → Termios) where
  -- `sancus_serial_open` behind the call of `sancus_open`, for a port that is open.
  unfoldable pub set_up : Serial → Sys (ℤ × Serial × Option Termios)
  unfolding init_fail
  set_up self = syscall (get_tio self.fd) >>= λ a k. elim a [
    | done n ↦ returns (self.fd, record self { oldtio = stored k }, some (stored k)) k
    | fail e ↦ init_fail self k
  ]

  -- `sancus_serial_open`: the result, the struct, and what is stored in `*copy` if it is not NULL.
  unfoldable pub serial_open : Bytes → Bool → Serial → Sys (ℤ × Serial × Option Termios)
  unfolding set_up
  serial_open path cloexec self = sancus_open path open_flags cloexec 0 >>= λ fd.
      if leb_ℤ (pos 0) fd
      then set_up (record self { fd = fd })
      else pure (fd, record self { fd = fd }, none)

  -- `sancus_serial_apply`
  unfoldable pub serial_apply : Serial → Termios → Sys ℤ
  serial_apply self tio =
      assert (leb_ℤ (pos 0) self.fd)
      >> (syscall (set_tio self.fd tio) >>= λ a. elim a [
        | fail e ↦ pure (negsuc 0)
        | done n ↦
            (syscall (get_tio self.fd) >>= λ b k. elim b [
              | fail e ↦ returns (negsuc 0) k
              | done m ↦ returns (if same_tio tio (stored k) then pos 0 else negsuc 0) k
            ])
      ])

  -- `sancus_serial_close`
  unfoldable pub serial_close : Serial → Sys (ℤ × Serial)
  serial_close self = do
    _ ← assert (leb_ℤ (pos 0) self.fd)
    ret ← serial_apply self self.oldtio
    orig_errno ← get_errno
    _ ← close_fd self.fd
    _ ← set_errno orig_errno
    pure (ret, record self { fd = negsuc 0 })

-- `x &= ~flags` and `x |= flags`
abbrev pub without : ℕ → ℕ → ℕ
without x flags = x - bit_and x flags

-- The masks of `sancus_serial_setup_raw` and `sancus_serial_setup_8N1`.
abbrev pub raw_iflag : ℕ
raw_iflag = 0x5eb

abbrev pub raw_oflag : ℕ
raw_oflag = 1

abbrev pub raw_lflag : ℕ
raw_lflag = 0x804b

-- `CSIZE|PARENB`, `CSIZE|PARENB|CSTOPB`, `CS8` and `CLOCAL|CREAD`
abbrev pub raw_cflag : ℕ
raw_cflag = 0x130

abbrev pub frame : ℕ
frame = 0x170

abbrev pub cs8 : ℕ
cs8 = 0x30

abbrev pub receiver : ℕ
receiver = 0x880

-- `sancus_serial_setup_raw`
unfoldable pub setup_raw : Termios → Termios
setup_raw tio = record tio {
  iflag = without tio.iflag raw_iflag;
  oflag = without tio.oflag raw_oflag;
  lflag = without tio.lflag raw_lflag;
  cflag = bit_or (without tio.cflag raw_cflag) cs8;
}

-- `sancus_serial_setup_8N1`, with `cfsetispeed` and `cfsetospeed`
unfoldable pub setup_8N1 : (ℕ → Termios → Termios) → (ℕ → Termios → Termios) → Termios → ℕ → Termios
setup_8N1 cfsetispeed cfsetospeed tio baudrate =
    let framed : Termios = record tio {
      cflag = bit_or (without (bit_or tio.cflag receiver) frame) cs8;
    } in
    if baudrate == 0 then framed else cfsetospeed baudrate (cfsetispeed baudrate framed)
