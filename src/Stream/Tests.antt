-- ===== src/Stream/Tests.antt =====
-- The theorem on streams at a buffer of five bytes.
use sancus_core.Base.{Option, ◌≡◌, refl, true, some, [], ◌∷◌, ◌++◌, take, arith}
use sancus_core.Base.Int.{pos}
use sancus_core.Base.Memory.{Bytes, load, store}
use sancus_core.Buffer.{Buffer}
use sancus_core.Buffer.Inv.{IsValid, contents}
use sancus_core.Fd.{done, fail}
use sancus_core.Fd
use sancus_core.Legacy.{skip, settle, rebase}
use sancus_core.Legacy
use sancus_core.Sys.{Kernel, Result, returns, pure}
use sancus_core.Sys.Rules.{Ensures}
use sancus_core.Ev.Polled.{Polled, polled, noon}
use sancus_core.Stream.{
  World, Settings, stop, read_cb, make_room, try_read, fill, taken_in, drain, served,
}
use sancus_core.Stream.Flow.{Careful, Flows, recorded}
use sancus_core.Stream.Reads.{read_cb_lem}
use sancus_core.Stream.Events.{incoming}
use sancus_core.Stream.Story.{Meets, Reached, begun, event, stopped, reached_lem}

-- An application that consumes two bytes at a time.
abbrev pairs : Settings Polled (Unit {0})
pairs = record {
  on_error = λ e w. pure (true, w);
  on_close = λ w. pure w;
  on_read = λ text w. pure (pos 2, w);
}

pairs-Careful : Careful pairs
pairs-Careful = ((λ e w k. refl), (λ w k. refl), λ text w k. refl)

-- One byte is in the buffer.
abbrev five : Buffer
five = record { buf = 0 ∷ 96 ∷ 0 ∷ 0 ∷ 0 ∷ []; base = 1; len = 1; size = 5 }

five-IsValid : IsValid five
five-IsValid = record {
  extent = omega arith;
  backed = refl;
  small = omega arith;
  positive = omega arith;
}

abbrev streaming : World Polled (Bytes × Unit {0})
streaming = record {
  stream = record { read_watcher = record { fd = pos 4; active = true }; read_buffer = five };
  loop = noon;
  app = (95 ∷ [], tt);
}

abbrev kernel : Kernel
kernel = record { answers = fail 4 ∷ done 2 ∷ []; log = []; errno = 0 }

read_twice : Fd.read (fail 4 ∷ done 2 ∷ []) ≡ some (pos 2, [])
unfolding Fd.read
read_twice = refl

read_cb_lem_example :
    Ensures
      (Flows ((95 ∷ []) ++ (contents five ++ take 2 (97 ∷ 98 ∷ 99 ∷ []))))
      (read_cb polled (recorded pairs) 6 (97 ∷ 98 ∷ 99 ∷ []) 1 streaming kernel)
read_cb_lem_example =
    read_cb_lem polled pairs pairs-Careful 6 2 1 (97 ∷ 98 ∷ 99 ∷ []) [] streaming kernel refl refl
      five-IsValid (omega arith) read_twice (omega arith) (omega arith) (omega arith)

-- All of the four bytes were consumed.
abbrev consumed : Result (Option (World Polled (Bytes × Unit {0}))) → Bytes
consumed (returns (some w) k) = w.app.0
consumed r = []

consumes :
    consumed (read_cb polled (recorded pairs) 6 (97 ∷ 98 ∷ 99 ∷ []) 1 streaming kernel)
    ≡ 95 ∷ 96 ∷ 97 ∷ 98 ∷ []
unfolding read_cb make_room try_read fill Legacy.read Fd.read store taken_in drain served skip
    settle rebase load
consumes = refl

-- The same event, and the stream stopped behind it.
abbrev run : Result (Option (World Polled (Bytes × Unit {0})))
run = read_cb polled (recorded pairs) 6 (97 ∷ 98 ∷ 99 ∷ []) 1 streaming kernel

abbrev world_of :
    Result (Option (World Polled (Bytes × Unit {0}))) → World Polled (Bytes × Unit {0})
world_of (returns (some w) k) = w
world_of r = streaming

abbrev kernel_of : Result (Option (World Polled (Bytes × Unit {0}))) → Kernel
kernel_of (returns w k) = k
kernel_of r = kernel

runs : run ≡ returns (some (world_of run)) (kernel_of run)
unfolding read_cb make_room try_read fill Legacy.read Fd.read store taken_in drain served skip
    settle rebase load
runs = refl

meets : Meets polled 6 1 (97 ∷ 98 ∷ 99 ∷ []) streaming kernel
unfolding Fd.read
meets = record { calm = refl; fits = omega arith; here = omega arith; enough = omega arith }

lived :
    Reached polled pairs streaming
      (incoming polled 1 kernel (97 ∷ 98 ∷ 99 ∷ []))
      (stop polled (recorded pairs) (world_of run))
lived =
    stopped (world_of run)
      (event [] streaming kernel (kernel_of run) 6 1 (97 ∷ 98 ∷ 99 ∷ []) begun meets runs)

reached_lem_example :
    IsValid (stop polled (recorded pairs) (world_of run)).stream.read_buffer
    × ((stop polled (recorded pairs) (world_of run)).app.0
          ++ contents (stop polled (recorded pairs) (world_of run)).stream.read_buffer
        ≡ (95 ∷ 96 ∷ []) ++ incoming polled 1 kernel (97 ∷ 98 ∷ 99 ∷ []))
reached_lem_example =
    reached_lem polled pairs pairs-Careful streaming (stop polled (recorded pairs) (world_of run))
      (incoming polled 1 kernel (97 ∷ 98 ∷ 99 ∷ [])) five-IsValid lived
