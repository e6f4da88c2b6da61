-- ===== src/Serial/Tests.antt =====
-- A serial port at concrete answers.
use Prim.Native.Nat.{bit_and}
use sancus_core.Base.{◌≡◌, refl, false, Option, [], ◌∷◌}
use sancus_core.Base.Int.{ℤ, pos, negsuc}
use sancus_core.Fd.{done, fail}
use sancus_core.Sys.{Kernel, Result, returns, Termios, answered, syscall, close_fd, close_from}
use sancus_core.Open.{openat_impl, open_from, settle, opened}
use sancus_core.Serial.{Serial, serial_open, setup_8N1, cs8, frame, receiver}
use sancus_core.Serial.Modes.{setup_8N1_lem}

-- 9600 baud, eight bits, echo.
abbrev usual : Termios
usual = record { iflag = 0x500; oflag = 5; cflag = 0xbd; lflag = 0x8a3b; rest = [] }

abbrev told : Kernel → Termios
told k = usual

-- The port opens as 5, and its settings are told.
abbrev present : Kernel
present = record { answers = done 5 ∷ done 0 ∷ []; log = []; errno = 0 }

-- Behind an interruption it opens, but is no terminal.
abbrev no_terminal : Kernel
no_terminal = record { answers = fail 4 ∷ done 5 ∷ fail 25 ∷ done 0 ∷ []; log = []; errno = 0 }

abbrev port : Serial
port = record { fd = pos 5; oldtio = usual }

abbrev result : Result (ℤ × Serial × Option Termios) → ℤ × ℤ
result (returns (rc, self, copy) k) = (rc, self.fd)
result r = (pos 0, pos 0)

opened_port :
    result (serial_open told (116 ∷ []) false (record { fd = negsuc 0; oldtio = usual }) present)
    ≡ (pos 5, pos 5)
unfolding serial_open openat_impl open_from settle opened syscall answered
opened_port = refl

refused :
    result
      (serial_open told (116 ∷ []) false (record { fd = negsuc 0; oldtio = usual }) no_terminal)
    ≡ (negsuc 0, negsuc 0)
unfolding serial_open openat_impl open_from settle opened syscall answered close_fd close_from
refused = refl

-- The settings are set and read, and the port is closed behind an interruption.
abbrev restoring : Kernel
restoring = record { answers = done 0 ∷ done 0 ∷ fail 4 ∷ done 0 ∷ []; log = []; errno = 0 }

setup_8N1_lem_example :
    (bit_and frame (setup_8N1 (λ n t. t) (λ n t. t) usual 9600).cflag ≡ cs8)
    × (bit_and receiver (setup_8N1 (λ n t. t) (λ n t. t) usual 9600).cflag ≡ receiver)
setup_8N1_lem_example =
    setup_8N1_lem (λ n t. t) (λ n t. t) usual 9600 (λ n t. (refl, refl)) (λ n t. (refl, refl))
