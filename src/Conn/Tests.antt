-- ===== src/Conn/Tests.antt =====
-- The theorems on connections at concrete events and answers.
use sancus_core.Base.{ℕ, ◌≡◌, refl, true, some, [], ◌∷◌, inr, List}
use sancus_core.Base.Int.{ℤ, pos, negsuc}
use sancus_core.Base.Memory.{Bytes}
use sancus_core.Fd.{done, fail}
use sancus_core.Sys.{Kernel, Result, returns, aborts, pure, answered, syscall, close_fd, close_from}
use sancus_core.Sys.Rules.{Ensures, Partially}
use sancus_core.Ev.Polled.{Polled, polled, polled-Keeping, polled-Stopping, noon}
use sancus_core.Socket.{sancus_socket, configure, set_wanted}
use sancus_core.Ev.Owned.{Released}
use sancus_core.Conn.Life.{close-stop}
use sancus_core.Conn.{
  stop, close, Conn, World, Settings, inprogress, watcher_error, connect_error, io_cb, dispatch,
  settle, refused, connect_done, ipv4_connect, ipv6_connect, local_connect, init_tcp,
  connect_socket, not_connected,
}
use sancus_core.Conn.Leaks.{Connects, connects_lem}
use sancus_core.Conn.Story.{
  Event, reads, connects, errs, opens_inprogress, Courteous, Told, run, story_lem,
}

-- An application that does nothing.
abbrev idle : Settings Polled (Unit {0})
idle = record { on_read = λ w. pure w; on_connect = λ w. pure w; on_error = λ e w. pure w }

idle-Courteous : Courteous polled idle
idle-Courteous = ((λ w k. refl), (λ w k. refl), λ e w k. refl)

abbrev watched : Conn Polled
watched = record {
  io = record { fd = pos 5; active = true };
  state = inprogress;
  last_activity = noon.now;
}

abbrev fresh : World Polled (List Event × Unit {0})
fresh = record { conn = watched; loop = noon; app = ([], tt) }

-- `getsockopt` finds no error.
abbrev quiet : Kernel
quiet = record { answers = done 0 ∷ []; log = []; errno = 0 }

abbrev refusing : Kernel
refusing = record { answers = done 111 ∷ []; log = []; errno = 0 }

-- Of a result, the calls and the state.
abbrev seen : Result (World Polled (List Event × Unit {0})) → List Event
seen (returns w k) = w.app.0
seen r = []

connects_and_reads :
    seen (run polled idle (3 ∷ 1 ∷ 4 ∷ 1 ∷ []) fresh quiet)
    ≡ reads ∷ errs watcher_error ∷ reads ∷ connects ∷ []
unfolding io_cb dispatch settle connect_done syscall answered
connects_and_reads = refl

is_refused :
    seen (run polled idle (3 ∷ 4 ∷ []) fresh refusing)
    ≡ errs watcher_error ∷ errs connect_error ∷ []
unfolding io_cb dispatch settle refused syscall answered
is_refused = refl

-- An event after a failure is the application's error.
fails_after : run polled idle (3 ∷ 1 ∷ []) fresh refusing ≡ aborts
unfolding io_cb dispatch settle refused syscall answered
fails_after = refl

story_lem_example : Partially (Told polled idle) (run polled idle (3 ∷ 1 ∷ 4 ∷ 1 ∷ []) fresh quiet)
story_lem_example =
    story_lem polled idle (3 ∷ 1 ∷ 4 ∷ 1 ∷ []) fresh quiet idle-Courteous opens_inprogress

-- A resolver that knows every address.
abbrev resolve : ℕ → Bytes → ℤ × Bytes
resolve family addr = (pos 1, addr)

-- The connection is refused, and `close` is interrupted once.
abbrev unreachable : Kernel
unreachable = record {
  answers = done 7 ∷ done 2 ∷ done 0 ∷ fail 111 ∷ fail 4 ∷ done 0 ∷ [];
  log = [];
  errno = 0;
}

abbrev outcome : Result (ℤ × Conn Polled) → ℤ × ℤ × ℕ
outcome (returns (rc, c) k) = (rc, c.io.fd, k.errno)
outcome r = (pos 0, pos 0, 0)

connection_refused :
    outcome (ipv4_connect polled resolve (49 ∷ []) 80 true watched unreachable)
    ≡ (negsuc 0, negsuc 0, 111)
unfolding ipv4_connect init_tcp connect_socket not_connected sancus_socket configure set_wanted
    syscall answered close_fd close_from
connection_refused = refl

connects_lem_example :
    Ensures
      (Connects polled watched unreachable)
      (ipv4_connect polled resolve (49 ∷ []) 80 true watched unreachable)
    × Ensures
        (Connects polled watched unreachable)
        (ipv6_connect polled resolve (49 ∷ []) 80 true watched unreachable)
    × Ensures
        (Connects polled watched unreachable)
        (local_connect polled (some (47 ∷ 120 ∷ [])) true watched unreachable)
connects_lem_example =
    connects_lem polled polled-Keeping resolve (49 ∷ []) (some (47 ∷ 120 ∷ [])) 80 true watched
      unreachable (λ family addr. inr refl)

-- `close` is interrupted once.
abbrev interrupted : Kernel
interrupted = record { answers = fail 4 ∷ done 0 ∷ []; log = []; errno = 0 }

close-stop_example :
    Ensures
      (λ c' k'.
        Released polled (λ c. c.io) (pos 5) interrupted c' k' × (close polled c' k' ≡ aborts))
      (close polled (stop polled watched) interrupted)
close-stop_example = close-stop polled polled-Keeping polled-Stopping watched interrupted refl
