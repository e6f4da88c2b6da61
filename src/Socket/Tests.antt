-- ===== src/Socket/Tests.antt =====
-- The theorems on sockets at concrete answers.
use sancus_core.Base.{◌≡◌, refl, true, [], ◌∷◌}
use sancus_core.Base.Int.{pos, negsuc}
use sancus_core.Fd.{done, fail}
use sancus_core.Sys.{Kernel, returns, socket, get_flags, set_flags, close, syscall, answered}
use sancus_core.Socket.{sancus_socket, configure, set_wanted, socket_failed}

-- Descriptor 7, whose flags are 2; the second call for them fails, and so the descriptor is closed.
abbrev refusing : Kernel
refusing = record { answers = done 7 ∷ done 2 ∷ fail 22 ∷ done 0 ∷ []; log = []; errno = 0 }

socket_refused :
    sancus_socket 2 1 0 true true refusing
    ≡ returns (negsuc 0) (record {
      answers = [];
      log =
          record { call = close (pos 7); answer = done 0 }
          ∷ record { call = set_flags (pos 7) 2051; answer = fail 22 }
          ∷ record { call = get_flags (pos 7); answer = done 2 }
          ∷ record { call = socket 2 526337 0; answer = done 7 }
          ∷ [];
      errno = 22;
    })
unfolding sancus_socket configure set_wanted socket_failed syscall answered
socket_refused = refl
