-- ===== src/Serial/Sessions.antt =====
-- A serial port from its opening to its closing.
use sancus_core.Base.{
  ℕ, Bool, true, false, Option, none, some, List, [], ◌∷◌, ◌≡◌, ◌⊎◌, if◌then◌else◌,
}
use sancus_core.Base.Int.{ℤ, pos, negsuc}
use sancus_core.Fd.{done}
use sancus_core.Sys.{Kernel, Call, Termios, get_tio, close, Entry}
use sancus_core.Sys.Ledger.{is_open, Closed}
use sancus_core.Serial.{Serial}
use sancus_core.Serial.Apply.{Applied}

-- Every descriptor that is open was open before, or is the result.
abbrev pub KeptBy : List Entry → ℤ → List Entry → Type 0
KeptBy before rc log =
    (x : ℕ) → is_open (pos x) log ≡ true → (pos x ≡ rc) ⊎ (is_open (pos x) before ≡ true)

-- A port that was opened, with `k'` the kernel that told its settings in the last call: they are in the
-- struct and in `*copy`. Otherwise nothing is in `*copy`.
abbrev pub Told : (Kernel → Termios) → ℤ → Serial → Option Termios → Kernel → Type 0
Told stored (pos fd) self copy k' =
    (self.oldtio ≡ stored k')
    × (copy ≡ some (stored k'))
    × ((n : ℕ) × (log : List Entry) × (k'.log
          ≡ record { call = get_tio (pos fd); answer = done n } ∷ log))
Told stored (negsuc n) self copy k' = copy ≡ none

-- What `sancus_serial_open` owes: the struct has the descriptor, and the settings if it is one.
abbrev pub OpensPort :
    (Kernel → Termios) → List Entry → ℤ × Serial × Option Termios → Kernel → Type 0
OpensPort stored before (rc, self, copy) k' =
    (self.fd ≡ rc) × KeptBy before rc k'.log × Told stored rc self copy k'

-- The calls but for `close`.
abbrev pub is_close : Call → Bool
is_close (close fd) = true
is_close c = false

abbrev pub besides : List Entry → List Entry
besides [] = []
besides (e ∷ log) = if is_close e.call then besides log else e ∷ besides log

-- What `sancus_serial_close` owes, for a kernel `k1` behind applying the old settings: behind that
-- only `close` is called, the descriptor is closed and no other, and `errno` is as it was then.
abbrev pub ClosesPort : (Kernel → Termios) → Serial → Kernel → ℤ × Serial → Kernel → Type 0
ClosesPort stored self k (rc, self') k' =
    (self'.fd ≡ negsuc 0)
    × Closed self.fd k.log k'.log
    × ((k1 : Kernel) × Applied stored self.fd self.oldtio k.log rc k1
        × (besides k'.log ≡ besides k1.log)
        × (k'.errno ≡ k1.errno))
