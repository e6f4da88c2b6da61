-- ===== src/Sys/Ledger.antt =====
-- The descriptors that are open, as the log of the calls tells it.
use sancus_core.Base.{
  ℕ, List, Option, none, some, [], ◌∷◌, Bool, true, false, ◌&&◌, ◌||◌, not, ◌≡◌, refl, ap, sym,
  arith, ◌∙◌,
}
use sancus_core.Base.Int.{ℤ, pos, negsuc, eqb_ℤ}
use sancus_core.Fd.{Answer, done, fail}
use sancus_core.Sys.{Kernel, Call, socket, close, connect, bind, listen, accept, openat, Entry}

-- A descriptor is open from the call that returns it to the call that closes it, which releases it
-- whatever it returns.
abbrev pub changed : ℤ → Call → Answer → Bool → Bool
changed x (socket f t p) (done fd) was = eqb_ℤ x (pos fd) || was
changed x (accept s) (done fd) was = eqb_ℤ x (pos fd) || was
changed x (openat dir path flags mode) (done fd) was = eqb_ℤ x (pos fd) || was
changed x (close fd) a was = not (eqb_ℤ x fd) && was
changed x c a was = was

abbrev pub attach_answer : Call → Answer → Option Answer → Option Answer
attach_answer (connect fd sa) a was = some a
attach_answer (bind fd sa) a was = some a
attach_answer (listen fd n) a was = some a
attach_answer (close fd) a was = was
attach_answer c a was = none

abbrev pub is_open : ℤ → List Entry → Bool
is_open x [] = false
is_open x (e ∷ log) = changed x e.call e.answer (is_open x log)

-- From one log to the next: every descriptor that is open was open; the same ones are open; one was
-- opened; one was closed.
abbrev pub NoneOpened : List Entry → List Entry → Type 0
NoneOpened before log = (x : ℤ) → is_open x log ≡ true → is_open x before ≡ true

abbrev pub Same : List Entry → List Entry → Type 0
Same before log = (x : ℤ) → is_open x log ≡ is_open x before

abbrev pub Opened : ℤ → List Entry → List Entry → Type 0
Opened fd before log = (x : ℤ) → is_open x log ≡ (eqb_ℤ x fd || is_open x before)

abbrev pub Closed : ℤ → List Entry → List Entry → Type 0
Closed fd before log = (x : ℤ) → is_open x log ≡ (not (eqb_ℤ x fd) && is_open x before)

-- What a function owes that returns a descriptor, or -1: the descriptor is open and the others are
-- as they were, or nothing that was not open is.
abbrev pub Acquired : List Entry → ℤ → List Entry → Type 0
Acquired before (pos n) log = Opened (pos n) before log
Acquired before (negsuc n) log = NoneOpened before log

-- The answer to the last call but for `close`, where that was `connect`, `bind` or
-- `listen`.
abbrev pub last_attach : List Entry → Option Answer
last_attach [] = none
last_attach (e ∷ log) = attach_answer e.call e.answer (last_attach log)

-- `errno` is what such a call left that failed.
abbrev pub Explains : Option Answer → ℕ → Type 0
Explains (some (fail e)) errno = errno ≡ e
Explains (some (done n)) errno = Unit
Explains none errno = Unit

-- A failure, reported: nothing is open that was not, and `errno` is that of the call that failed.
abbrev pub Refused : List Entry → Kernel → Type 0
Refused before k = NoneOpened before k.log × Explains (last_attach k.log) k.errno

-- What a new socket owes, the last part where there is none: no such call was made for it.
abbrev pub Made : List Entry → ℤ → List Entry → Type 0
Made before (pos n) log = Opened (pos n) before log
Made before (negsuc n) log = NoneOpened before log × (last_attach log ≡ none)

pub Made-Refused :
    (n : ℕ) (before : List Entry) (k : Kernel) → Made before (negsuc n) k.log → Refused before k
Made-Refused n before k made = (made.0, rw (made.1) tt)

-- A descriptor that was opened and then closed.
Opened-Closed : (b f : Bool) → (not b && (b || f)) ≡ true → f ≡ true
Opened-Closed true f h = absurd (ground arith)
Opened-Closed false f h = h

pub Closed-NoneOpened :
    (fd : ℤ) (a b c : List Entry) → Opened fd a b → Closed fd b c → NoneOpened a c
Closed-NoneOpened fd a b c opened closed x h =
    Opened-Closed (eqb_ℤ x fd) (is_open x a)
      (ap (λ f. not (eqb_ℤ x fd) && f) (sym (opened x)) ∙ sym (closed x) ∙ h)

-- The same of the calls that open and close nothing, and of the one after the other.
pub Same-Opened : (fd : ℤ) (a b c : List Entry) → Opened fd a b → Same b c → Opened fd a c
Same-Opened fd a b c opened same x = same x ∙ opened x

pub Closed-again : (b f : Bool) → (not b && (not b && f)) ≡ (not b && f)
Closed-again true f = refl
Closed-again false f = refl
