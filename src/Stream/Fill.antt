-- ===== src/Stream/Fill.antt =====
-- A read appends what arrived to the data.
use sancus_core.Base.{ℕ, ◌+◌, ◌≤◌, ◌≡◌, refl, ap, arith, some, List, length, length-take, take}
use sancus_core.Base.Int.{pos}
use sancus_core.Base.Memory.{Bytes}
use sancus_core.Base.Memory.Laws.{stored, store-ok}
use sancus_core.Base.Outcome.{ok}
use sancus_core.Base.Word.{add64}
use sancus_core.Buffer.{Buffer}
use sancus_core.Buffer.Inv.{IsValid, room, Extends}
use sancus_core.Buffer.Append.{extended, extended-Extends}
use sancus_core.Fd.{Answer}
use sancus_core.Fd
use sancus_core.Legacy
use sancus_core.Sys.{Kernel, returns}
use sancus_core.Stream.{fill}

module _ {b : Buffer} (v : IsValid b) (arrived : Bytes) (left : List Answer) where
  read-pos :
      (n : ℕ) (answers : List Answer)
      → Fd.read answers ≡ some (pos n, left)
      → n ≤ room b
      → n ≤ length arrived
      → Legacy.read b answers arrived ≡ some (ok (pos n, extended b (take n arrived)))
  unfolding Legacy.read
  read-pos n answers e h l =
      let size : length (take n arrived) ≡ n = omega (arith, length-take n arrived) in
      let place : add64 b.base b.len ≡ b.base + b.len = omega (arith, v.extent, v.small) in
      rw
        (
          Legacy.read,
          e,
          place,
          store-ok b.buf (b.base + b.len) (take n arrived) (omega (arith, v.extent, v.backed)),
        )
        (ap
          (λ (j : ℕ). some (
            ok (pos n, record b { buf = stored b.buf (b.base + b.len) (take n arrived); len = j })))
          (omega (arith, v.extent, v.small)))

  -- What a successful read leaves.
  pub fill-pos :
      (n : ℕ) (k : Kernel)
      → Fd.read k.answers ≡ some (pos n, left)
      → n ≤ room b
      → n ≤ length arrived
      → (fill arrived b k
          ≡ returns (pos n, extended b (take n arrived)) (record k { answers = left }))
        × Extends b (take n arrived) (extended b (take n arrived))
  unfolding fill
  fill-pos n k e h l = (
    rw (fill, e, read-pos n k.answers e h l) refl,
    extended-Extends (take n arrived) v (omega (arith, length-take n arrived)),
  )
