-- ===== src/Serial/Apply.antt =====
-- What `sancus_serial_apply` comes to.
use sancus_core.Base.{
  ℕ, ap, Bool, true, false, List, ◌∷◌, ◌≡◌, ◌≢◌, refl, sym, ◌∙◌, if◌then◌else◌, arith,
}
use sancus_core.Base.Int.{ℤ, pos, negsuc, leb_ℤ}
use sancus_core.Base.Memory.Laws.{bytes_eq_refl, eq_of_bytes_eq}
use sancus_core.Fd.{Answer, done, fail}
use sancus_core.Sys.{Kernel, Termios, get_tio, set_tio, Entry}
use sancus_core.Sys.Rules.{Ensures, call-Ensures, Called}
use sancus_core.Sys.Ledger.{is_open, Same}
use sancus_core.Serial.{Serial, serial_apply, same_tio}

-- What became of `sancus_serial_apply`, from the log and the settings that `tcgetattr` told in the
-- end: -1 where `tcsetattr` or `tcgetattr` failed, or what was told is not what was asked for, byte
-- for byte; 0 where it is.
pub data Applied (stored : Kernel → Termios) (fd : ℤ) (tio : Termios) (before : List Entry)
    : ℤ → Kernel → Type 0 where
  refused :
      {k : Kernel} (e : ℕ)
      → k.log ≡ record { call = set_tio fd tio; answer = fail e } ∷ before
      → Applied stored fd tio before (negsuc 0) k
  untold :
      {k : Kernel} (n e : ℕ)
      → k.log
        ≡ record { call = get_tio fd; answer = fail e }
          ∷ record { call = set_tio fd tio; answer = done n }
          ∷ before
      → Applied stored fd tio before (negsuc 0) k
  differs :
      {k : Kernel} (n m : ℕ)
      → k.log
        ≡ record { call = get_tio fd; answer = done m }
          ∷ record { call = set_tio fd tio; answer = done n }
          ∷ before
      → stored k ≢ tio
      → Applied stored fd tio before (negsuc 0) k
  confirmed :
      {k : Kernel} (n m : ℕ)
      → k.log
        ≡ record { call = get_tio fd; answer = done m }
          ∷ record { call = set_tio fd tio; answer = done n }
          ∷ before
      → stored k ≡ tio
      → Applied stored fd tio before (pos 0) k

pub Applied-Same :
    (stored : Kernel → Termios) (fd : ℤ) (tio : Termios) (before : List Entry) (rc : ℤ) (k : Kernel)
    → Applied stored fd tio before rc k
    → Same before k.log
Applied-Same stored fd tio before rc k (refused e log) x = ap (is_open x) log
Applied-Same stored fd tio before rc k (untold n e log) x = ap (is_open x) log
Applied-Same stored fd tio before rc k (differs n m log other) x = ap (is_open x) log
Applied-Same stored fd tio before rc k (confirmed n m log same) x = ap (is_open x) log

eq_of_same_tio : (a b : Termios) → same_tio a b ≡ true → a ≡ b
eq_of_same_tio a b h =
    let i : a.iflag ≡ b.iflag = ground arith in
    let o : a.oflag ≡ b.oflag = ground arith in
    let c : a.cflag ≡ b.cflag = ground arith in
    let l : a.lflag ≡ b.lflag = ground arith in
    let r : a.rest ≡ b.rest = eq_of_bytes_eq a.rest b.rest (ground arith) in cc

same_tio_self : (a : Termios) → same_tio a a ≡ true
same_tio_self a = ground (arith, bytes_eq_refl a.rest)

module _ (stored : Kernel → Termios) (self : Serial) (port : leb_ℤ (pos 0) self.fd ≡ true) where
  compared :
      (tio : Termios) (before : List Entry) (k : Kernel) (n m : ℕ) (same : Bool)
      → k.log
        ≡ record { call = get_tio self.fd; answer = done m }
          ∷ record { call = set_tio self.fd tio; answer = done n }
          ∷ before
      → same_tio tio (stored k) ≡ same
      → Applied stored self.fd tio before (if same then pos 0 else negsuc 0) k
  compared tio before k n m true log e = confirmed n m log (sym (eq_of_same_tio tio (stored k) e))
  compared tio before k n m false log e = differs n m log (λ same.
      absurd
        (let bad : true ≡ false = sym (same_tio_self tio) ∙ ap (same_tio tio) (sym same) ∙ e in cc))

  pub serial_apply-Applied :
      (tio : Termios) (k : Kernel)
      → Ensures (Applied stored self.fd tio k.log) (serial_apply stored self tio k)
  unfolding serial_apply
  serial_apply-Applied tio k = rw port (
      call-Ensures (Applied stored self.fd tio k.log) (set_tio self.fd tio) k _
        (λ n k' called.
          let behind : (a : Answer) (k'' : Kernel)
              → Called (get_tio self.fd) k' a k''
              → k''.log
                ≡ record { call = get_tio self.fd; answer = a }
                  ∷ record { call = set_tio self.fd tio; answer = done n }
                  ∷ k.log =
            λ a k'' called'.
              called'.0
              ∙ ap (λ log. record { call = get_tio self.fd; answer = a } ∷ log) (called.0) in
          call-Ensures (Applied stored self.fd tio k.log) (get_tio self.fd) k' _
            (λ m k'' called'. compared tio k.log k'' n m _ (behind (done m) k'' called') refl)
            (λ e k'' called'. untold n e (behind (fail e) k'' called')))
        (λ e k' called. refused e (called.0)))
