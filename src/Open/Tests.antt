-- ===== src/Open/Tests.antt =====
-- Opening files at concrete answers.
use sancus_core.Base.{ℕ, ◌≡◌, refl, true, [], ◌∷◌}
use sancus_core.Base.Int.{ℤ, pos, negsuc}
use sancus_core.Fd.{done, fail}
use sancus_core.Sys.{Kernel, Result, returns, answered, syscall, close_fd, close_from}
use sancus_core.Sys.Rules.{Ensures}
use sancus_core.Open.{
  sancus_openat, sancus_open, openat_impl, open_from, settle, opened, mark, open_failed,
}
use sancus_core.Open.Leaks.{Opens, openat_lem}

-- The call is interrupted, and the flags of descriptor 5 cannot be set.
abbrev refusing : Kernel
refusing = record {
  answers = fail 4 ∷ done 5 ∷ done 0 ∷ fail 22 ∷ done 0 ∷ [];
  log = [];
  errno = 0;
}

-- The file does not exist.
abbrev missing : Kernel
missing = record { answers = fail 2 ∷ []; log = []; errno = 0 }

abbrev outcome : Result ℤ → ℤ × ℕ
outcome (returns x k) = (x, k.errno)
outcome r = (pos 0, 0)

-- Errors are returned in two ways.
openat_refused : outcome (sancus_openat (pos 3) (97 ∷ []) 0 true 0 refusing) ≡ (negsuc 21, 22)
unfolding openat_impl open_from settle opened mark open_failed syscall answered close_fd close_from
openat_refused = refl

open_missing : outcome (sancus_open (97 ∷ []) 0 true 0 missing) ≡ (negsuc 0, 2)
unfolding openat_impl open_from settle
open_missing = refl

openat_lem_example : Ensures (Opens []) (sancus_openat (pos 3) (97 ∷ []) 0 true 0 refusing)
openat_lem_example = openat_lem (pos 3) (97 ∷ []) 0 true 0 refusing
