-- ===== src/Server/Tests.antt =====
-- The theorems on servers at concrete answers.
use sancus_core.Base.{
  List, false, if◌then◌else◌, ℕ, Bool, ◌≡◌, refl, ◌==◌, true, none, some, [], ◌∷◌, inr,
}
use sancus_core.Base.Int.{ℤ, pos, negsuc}
use sancus_core.Base.Memory.{Bytes}
use sancus_core.Fd.{done, fail}
use sancus_core.Sys.{Kernel, Result, returns, pure, answered, syscall, close_fd, close_from}
use sancus_core.Sys.Rules.{Ensures}
use sancus_core.Ev.{has}
use sancus_core.Ev.Polled.{Polled, polled, polled-Keeping, polled-Stopping, polled-Starting, noon}
use sancus_core.Sys.Ledger.{is_open}
use sancus_core.Server.Session.{events, serve, session, Records, Accounts}
use sancus_core.Server.Life.{server_session}
use sancus_core.Socket.{sancus_accept, sancus_socket, configure, set_wanted}
use sancus_core.Server.{
  Server, World, Settings, connect_cb, ipv4_listen, ipv6_listen, local_listen, init_ipv4, init_tcp,
  bind_socket, bind_listen, set_options, not_bound, start, stop, close, accepted,
}
use sancus_core.Server.Listen.{listens_lem}
use sancus_core.Server.Leaks.{Listens}
use sancus_core.Server.Accept.{Serves, Decides, connect_cb_lem}

-- An application that takes descriptor 8 alone, and has no hook.
abbrev takes : ℕ → World Polled (Unit {0}) → Bool
takes fd w = fd == 8

abbrev choosy : Settings Polled (Unit {0})
choosy = record {
  pre_bind = none;
  on_connect = λ fd w. pure (takes fd w, w);
  on_error = λ e w. pure w;
}

choosy-Decides : Decides choosy takes
choosy-Decides = ((λ fd w k. (refl, λ x. refl)), λ w k x. refl)

abbrev listening : Server Polled
listening = record { connect = record { fd = pos 3; active = true } }

abbrev serving : World Polled (Unit {0})
serving = record { server = listening; loop = noon; app = tt }

-- `accept` is interrupted, then returns 9, which is closed again.
abbrev incoming : Kernel
incoming = record { answers = fail 4 ∷ done 9 ∷ done 0 ∷ []; log = []; errno = 0 }

connect_cb_lem_example :
    Serves polled choosy takes choosy-Decides
      (has 1 4)
      (has 1 1)
      serving
      incoming
      (connect_cb polled choosy 1 serving incoming)
connect_cb_lem_example = connect_cb_lem polled choosy takes choosy-Decides 1 serving incoming

-- A resolver that knows every address.
abbrev resolve : ℕ → Bytes → ℤ × Bytes
resolve family addr = (pos 1, addr)

-- The address is in use.
abbrev in_use : Kernel
in_use = record {
  answers = done 7 ∷ done 2 ∷ done 0 ∷ done 0 ∷ done 0 ∷ done 0 ∷ fail 98 ∷ fail 4 ∷ done 0 ∷ [];
  log = [];
  errno = 0;
}

abbrev outcome : Result (ℤ × Server Polled) → ℤ × ℤ × ℕ
outcome (returns (rc, s) k) = (rc, s.connect.fd, k.errno)
outcome r = (pos 0, pos 0, 0)

address_in_use :
    outcome (ipv4_listen polled choosy resolve (some (42 ∷ [])) 80 true 16 listening in_use)
    ≡ (negsuc 0, negsuc 0, 98)
unfolding ipv4_listen init_ipv4 init_tcp bind_socket bind_listen set_options not_bound sancus_socket
    configure set_wanted syscall answered close_fd close_from
address_in_use = refl

listens_lem_example :
    Ensures
      (Listens polled 16 listening [])
      (ipv4_listen polled choosy resolve (some (42 ∷ [])) 80 true 16 listening in_use)
    × Ensures
        (Listens polled 16 listening [])
        (ipv6_listen polled choosy resolve (some (42 ∷ [])) 80 true 16 listening in_use)
    × Ensures
        (Listens polled 16 listening [])
        (local_listen polled choosy (some (47 ∷ 120 ∷ [])) true 16 listening in_use)
listens_lem_example =
    listens_lem polled polled-Keeping 16 choosy tt resolve (some (42 ∷ [])) (some (47 ∷ 120 ∷ []))
      80 true listening in_use (λ family addr. inr refl)

-- An application that takes descriptor 8 alone, and keeps what it takes.
abbrev keeper : Settings Polled (List ℕ)
keeper = record {
  pre_bind = none;
  on_connect = λ fd w. pure (fd == 8, record w { app = if fd == 8 then fd ∷ w.app else w.app });
  on_error = λ e w. pure w;
}

keeper-Records : Records polled keeper (λ taken. taken)
keeper-Records = ((λ fd w k. ((refl, λ x. refl), refl)), λ w k. ((refl, λ x. refl), refl))

abbrev closed : World Polled (List ℕ)
closed = record {
  server = record { connect = record { fd = negsuc 0; active = false } };
  loop = noon;
  app = [];
}

-- The address is free; descriptors 8 and 9 come in.
abbrev free : Kernel
free = record {
  answers =
      done 7
      ∷ done 2
      ∷ done 0
      ∷ done 0
      ∷ done 0
      ∷ done 0
      ∷ done 0
      ∷ done 0
      ∷ done 8
      ∷ done 9
      ∷ done 0
      ∷ done 0
      ∷ [];
  log = [];
  errno = 0;
}

server_session_example :
    Ensures (Accounts polled keeper (λ taken. taken) []) (
      session polled keeper
        (ipv4_listen polled keeper resolve (some (42 ∷ [])) 80 true 16 closed.server)
        (1 ∷ 2 ∷ 1 ∷ [])
        closed
        free)
    × Ensures (Accounts polled keeper (λ taken. taken) []) (
        session polled keeper
          (ipv6_listen polled keeper resolve (some (42 ∷ [])) 80 true 16 closed.server)
          (1 ∷ 2 ∷ 1 ∷ [])
          closed
          free)
    × Ensures (Accounts polled keeper (λ taken. taken) []) (
        session polled keeper
          (local_listen polled keeper (some (47 ∷ 120 ∷ [])) true 16 closed.server)
          (1 ∷ 2 ∷ 1 ∷ [])
          closed
          free)
server_session_example =
    server_session polled polled-Keeping polled-Stopping polled-Starting keeper (λ taken. taken)
      keeper-Records 16 resolve (some (42 ∷ [])) (some (47 ∷ 120 ∷ [])) 80 true (1 ∷ 2 ∷ 1 ∷ [])
      closed free tt tt (λ family addr. inr refl) (refl, (refl, (refl, tt)))

-- What is left of it: the application's descriptor, and those that are open.
abbrev left : Result (World Polled (List ℕ)) → List ℕ × Bool × Bool × Bool
left (returns w k) = (w.app, is_open (pos 7) k.log, is_open (pos 8) k.log, is_open (pos 9) k.log)
left r = ([], true, true, true)

two_come_in :
    left (
      session polled keeper
        (ipv4_listen polled keeper resolve (some (42 ∷ [])) 80 true 16 closed.server)
        (1 ∷ 2 ∷ 1 ∷ [])
        closed
        free)
    ≡ (8 ∷ [], false, true, false)
unfolding session serve events start stop close connect_cb accepted sancus_accept ipv4_listen
    init_ipv4 init_tcp bind_socket bind_listen set_options not_bound sancus_socket configure
    set_wanted syscall answered close_fd close_from
two_come_in = refl
