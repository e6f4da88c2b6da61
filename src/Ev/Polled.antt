-- ===== src/Ev/Polled.antt =====
-- An event library that works, for the tests: a watcher is a descriptor and whether it is watched.
use sancus_core.Base.{Bool, true, false, refl}
use sancus_core.Base.Int.{ℤ, pos}
use sancus_core.Ev.{Ev, Keeping, Loop}
use sancus_core.Ev.Owned.{Stopping, Starting}

pub record Polled : Type 0 where
  pub fd : ℤ
  pub active : Bool

abbrev pub polled : Ev Polled
polled = record {
  fd = λ w. w.fd;
  with_fd = λ x w. record w { fd = x };
  init = λ cb x mode w. (pos 0, record { fd = x; active = false });
  start = λ w. (pos 0, record w { active = true });
  stop = λ w. (pos 0, record w { active = false });
  is_active = λ w. w.active;
  read_bit = 1;
  write_bit = 2;
  error_bit = 4;
}

pub polled-Keeping : Keeping polled
polled-Keeping = record { fd-init = λ cb x mode w. refl; fd-with_fd = λ x w. refl }

pub polled-Stopping : Stopping polled
polled-Stopping = record { is_active-stop = λ w. refl; fd-stop = λ w. refl }

pub polled-Starting : Starting polled
polled-Starting = record { is_active-init = λ cb x mode w. refl; fd-start = λ w. refl }

abbrev pub noon : Loop
noon = record { now = record { sec = pos 12; nsec = pos 0 } }
