-- ===== src/Sys.antt =====
-- System calls one after the other, as src/sancus/tcp_conn.c and its neighbours make them. The kernel
-- is a list of the answers that it is going to give, the log of the calls that it has answered, the
-- last one first, and `errno`. A run ends with a result, waits for an answer, or fails an `assert`.
pub mod Rules
pub mod Ledger
pub mod Closing
use sancus_core.Base.{ℕ, Option, Bool, true, false, List, [], ◌∷◌, ◌==◌, if◌then◌else◌}
use sancus_core.Base.Int.{ℤ, pos, neg_ℕ}
use sancus_core.Base.Memory.{Bytes}
use sancus_core.Base.Outcome.{Outcome, ok, fault, abort}
use sancus_core.Fd.{Answer, done, fail, eintr}

-- A `struct sockaddr`: the family, the port in network order, and the bytes of the host or the path.
pub record Address : Type 0 where
  pub family : ℕ
  pub port : ℕ
  pub host : Bytes

-- `struct termios`: its flags, and the bytes of the rest.
pub record Termios : Type 0 where
  pub iflag : ℕ
  pub oflag : ℕ
  pub cflag : ℕ
  pub lflag : ℕ
  pub rest : Bytes

-- The calls, with the arguments that the models speak of.
pub data Call : Type 0 where
  socket : ℕ → ℕ → ℕ → Call
  get_flags : ℤ → Call
  set_flags : ℤ → ℕ → Call
  close : ℤ → Call
  connect : ℤ → Address → Call
  bind : ℤ → Address → Call
  listen : ℤ → ℕ → Call
  set_option : ℤ → ℕ → ℕ → Call
  get_error : ℤ → Call
  accept : ℤ → Call
  unlink : Option Bytes → Call
  receive : ℤ → Call
  openat : ℤ → Bytes → ℕ → ℕ → Call
  get_tio : ℤ → Call
  set_tio : ℤ → Termios → Call

pub record Entry : Type 0 where
  pub call : Call
  pub answer : Answer

pub record Kernel : Type 0 where
  pub answers : List Answer
  pub log : List Entry
  pub errno : ℕ

pub data Result (A : Type 0) : Type 0 where
  returns : A → Kernel → Result A
  waits : Result A
  aborts : Result A

abbrev pub Sys : Type 0 → Type 0
Sys A = Kernel → Result A

abbrev pub pure : {A : Type 0} → A → Sys A
pure a k = returns a k

infixl 5 ◌>>=◌ ◌>>◌
abbrev pub ◌>>=◌ : {A B : Type 0} → Sys A → (A → Sys B) → Sys B
◌>>=◌ m f k = elim (m k) [ returns a k' ↦ f a k' | waits ↦ waits | aborts ↦ aborts ]

abbrev pub ◌>>◌ : {B : Type 0} → Sys (Unit {0}) → Sys B → Sys B
m >> n = m >>= λ _. n

-- `assert(b)`
abbrev pub assert : Bool → Sys (Unit {0})
assert true k = returns tt k
assert false k = aborts

-- `errno = e`
abbrev pub set_errno : ℕ → Sys (Unit {0})
set_errno e k = returns tt (record k { errno = e })

-- A piece of C without calls; an access outside an object ends the run as a failed `assert` does.
abbrev pub lift : {A : Type 0} → Outcome A → Sys A
lift (ok a) k = returns a k
lift fault k = aborts
lift abort k = aborts

abbrev pub get_errno : Sys ℕ
get_errno k = returns k.errno k

-- A call that is answered; a failure sets `errno`.
unfoldable pub answered : Call → List Answer → Kernel → Result Answer
answered c [] k = waits
answered c (done n ∷ rest) k =
    returns (done n)
      (record k { answers = rest; log = record { call = c; answer = done n } ∷ k.log })
answered c (fail e ∷ rest) k =
    returns (fail e)
      (record { answers = rest; log = record { call = c; answer = fail e } ∷ k.log; errno = e })

unfoldable pub syscall : Call → Sys Answer
unfolding answered
syscall c k = answered c k.answers k

-- `sancus_close`, with its calls in the log: it closes again after an interruption.
unfoldable pub close_from : ℤ → List Answer → Kernel → Result ℤ
close_from fd [] k = waits
close_from fd (done n ∷ rest) k =
    returns (pos 0)
      (record k { answers = rest; log = record { call = close fd; answer = done n } ∷ k.log })
close_from fd (fail e ∷ rest) k =
    let k' : Kernel = record {
      answers = rest;
      log = record { call = close fd; answer = fail e } ∷ k.log;
      errno = e;
    } in
    let again = close_from fd rest k' in if e == eintr then again else returns (neg_ℕ e) k'

unfoldable pub close_fd : ℤ → Sys ℤ
unfolding close_from
close_fd fd k = close_from fd k.answers k
