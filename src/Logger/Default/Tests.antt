-- ===== src/Logger/Default/Tests.antt =====
-- The default back end at concrete messages.
use sancus_core.Base.{
  ◌-◌, ◌++◌, ◌≡◌, refl, true, false, none, some, [], ◌∷◌, map, arith, length, take,
}
use sancus_core.Base.Int.{pos, negsuc, quot}
use sancus_core.Base.Memory.{Bytes}
use sancus_core.Base.Outcome.{ok}
use sancus_core.Base.Word.{einval}
use sancus_core.Buffer.{Printer}
use sancus_core.Fd.{done, fail}
use sancus_core.Time.{zero_ts}
use sancus_core.Time.Laws.{ts}
use sancus_core.Logger.Default.{
  Formats, fd_logger_write, set_fd_backend, set_default_backend, split_ms, level_print, entries,
  log_iov,
}
use sancus_core.Logger.Default.Stamps.{unset, stamps, since, stamps_lem}
use sancus_core.Time.Laws.{of_ns}
use sancus_core.Logger.Default.Lines.{line}
use sancus_core.Logger.Default.Output.{heading, times_after, fd_logger_write_lem}

-- A `vsnprintf` of a format without arguments.
abbrev say : Bytes → Printer
say text l = (pos (length text), take (l - 1) text ++ (0 ∷ []))

abbrev formats : Formats
formats = record {
  times = λ a b. say (91 ∷ 93 ∷ 32 ∷ []);
  letter = λ c. say (c ∷ 47 ∷ []);
  number = λ n. say (63 ∷ 47 ∷ []);
}

message_only :
    entries (log_iov (120 ∷ [])) [] (97 ∷ []) []
    ≡ log_iov (120 ∷ []) ∷ log_iov (97 ∷ []) ∷ log_iov (10 ∷ []) ∷ []
unfolding entries
message_only = refl

-- The level behind the last letter prints the NUL of the array.
behind_the_letters : level_print formats 5 64 ≡ (pos 2, 0 ∷ 47 ∷ 0 ∷ [])
behind_the_letters = refl

negative_descriptor :
    set_fd_backend (negsuc 0) (record { fd = pos 2; timestamp = true })
    ≡ (einval, record { fd = pos 2; timestamp = true })
unfolding set_fd_backend
negative_descriptor = refl

unusable :
    (set_default_backend (some (record { f = none })) (record { f = none }) (record { f = none })).0
    ≡ einval
unfolding set_default_backend
unusable = refl

milliseconds : split_ms (ts 3 45600000) ≡ (false, pos 3, pos 45)
unfolding split_ms quot
milliseconds = refl

-- A warning with a prefix, at the first write, behind an interruption.
fd_logger_write_lem_example :
    fd_logger_write formats
      (fail 4 ∷ done 11 ∷ [])
      1
      (112 ∷ [])
      (109 ∷ 115 ∷ [])
      []
      (some (record { fd = pos 2; timestamp = true }))
      unset
      (ts 3 0)
    ≡ ok (
      some (
        pos 11,
        line (heading true (91 ∷ 93 ∷ 32 ∷ []) (87 ∷ 47 ∷ [])) (112 ∷ []) (109 ∷ 115 ∷ []) [],
      ),
      times_after true unset (ts 3 0),
    )
fd_logger_write_lem_example =
    fd_logger_write_lem formats (pos 2) true unset (ts 3 0) 1 (112 ∷ []) (109 ∷ 115 ∷ []) []
      (91 ∷ 93 ∷ 32 ∷ []) (87 ∷ 47 ∷ []) (fail 4 ∷ []) [] (λ l h. refl) (λ l h. refl) (omega arith)
      (refl, tt) (omega arith)

stamps_lem_example :
    stamps unset (map of_ns (1500000000 ∷ 1700000000 ∷ 3700000000 ∷ []))
    ≡ (zero_ts, zero_ts) ∷ since 1500000000 1500000000 (1700000000 ∷ 3700000000 ∷ [])
stamps_lem_example =
    stamps_lem 1500000000 (1700000000 ∷ 3700000000 ∷ []) (omega arith) (omega arith)
