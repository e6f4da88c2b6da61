-- ===== src/Ev.antt =====
-- include/sancus/ev.h: the watcher of a descriptor and the event loop. The header is a stand-in for
-- an event library, so that the code above it takes an `Ev`, of which `stub` is the header's. The
-- loop is the time that it tells.
pub mod Polled
pub mod Owned
use sancus_core.Base.{ℕ, Bool, false, not, ◌==◌, ◌≡◌, refl}
use sancus_core.Base.Int.{ℤ, neg_ℕ}
use Prim.Native.Nat.{bit_and}
use sancus_core.Time.{Timespec}

-- The callbacks that the repository gives to a watcher.
pub data Handler : Type 0 where
  conn_io : Handler
  server_connect : Handler
  netlink_recv : Handler
  stream_read : Handler

-- What the code uses of `W`, a watcher: its `fd`, the functions of the header, and the bits of
-- `revents`.
pub record Ev (W : Type 0) : Type 0 where
  pub fd : W → ℤ
  pub with_fd : ℤ → W → W
  pub init : Handler → ℤ → ℕ → W → ℤ × W
  pub start : W → ℤ × W
  pub stop : W → ℤ × W
  pub is_active : W → Bool
  pub read_bit : ℕ
  pub write_bit : ℕ
  pub error_bit : ℕ

-- `revents & bit`, as a condition.
abbrev pub has : ℕ → ℕ → Bool
has revents bit = not (bit_and revents bit == 0)

-- `struct sancus_ev_fd`
pub record Watcher : Type 0 where
  pub fd : ℤ
  pub cb : Handler

-- -ENOSYS
abbrev pub enosys : ℤ
enosys = neg_ℕ 38

-- The functions of the header, which start nothing.
abbrev pub stub : Ev Watcher
stub = record {
  fd = λ w. w.fd;
  with_fd = λ x w. record w { fd = x };
  init = λ cb x mode w. (enosys, record { fd = x; cb = cb });
  start = λ w. (enosys, w);
  stop = λ w. (enosys, w);
  is_active = λ w. false;
  read_bit = 0;
  write_bit = 1;
  error_bit = 2;
}

-- `struct sancus_ev_loop`, and `sancus_ev_now`.
pub record Loop : Type 0 where
  pub now : Timespec

-- What an event library keeps: a watcher is set up for a descriptor and stays with it.
pub record Keeping {W : Type 0} (ev : Ev W) : Type 0 where
  pub fd-init : (cb : Handler) (x : ℤ) (mode : ℕ) (w : W) → ev.fd ((ev.init cb x mode w).1) ≡ x
  pub fd-with_fd : (x : ℤ) (w : W) → ev.fd (ev.with_fd x w) ≡ x

pub stub-Keeping : Keeping stub
stub-Keeping = record { fd-init = λ cb x mode w. refl; fd-with_fd = λ x w. refl }
