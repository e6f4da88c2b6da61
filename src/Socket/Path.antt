-- ===== src/Socket/Path.antt =====
-- The path of a local socket stays inside `sun_path`.
use sancus_core.Base.{◌≤◌, ◌≡◌, [], ◌∷◌, ◌++◌, length, length-append, arith}
use sancus_core.Base.Memory.{Bytes, store}
use sancus_core.Base.Memory.Laws.{stored, store-ok}
use sancus_core.Base.Outcome.{ok}
use sancus_core.Socket.{sun_path}

pub path_fits :
    (path : Bytes)
    → length path ≤ 107
    → store sun_path 0 (path ++ (0 ∷ [])) ≡ ok (stored sun_path 0 (path ++ (0 ∷ [])))
path_fits path h =
    store-ok sun_path 0 (path ++ (0 ∷ [])) (omega (arith, length-append path (0 ∷ [])))
