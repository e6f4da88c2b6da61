-- ===== src/Receiver/Tests.antt =====
-- The theorems on the netlink receiver at concrete datagrams.
use sancus_core.Base.{
  ℕ, zero, suc, ◌≤◌, Bool, ◌&&◌, ltb, ltb→lt, take, drop, length, Bool-cases, inl, inr, sym, ◌∙◌,
  ◌+◌, ◌*◌, ◌≡◌, refl, true, false, Option, some, none, List, [], ◌∷◌, ◌++◌, arith, replicate, leb,
}
use sancus_core.Base.Int.{ℤ, pos, negsuc}
use sancus_core.Base.Memory.{Bytes, load}
use sancus_core.Base.Outcome.{ok, fault}
use sancus_core.Fd.{done}
use sancus_core.Netlink.Wire.{read, le}
use sancus_core.Sys.{Kernel, Result, returns, pure, answered, syscall, close_fd, close_from}
use sancus_core.Sys.Rules.{Ensures, Partially}
use sancus_core.Ev.Polled.{Polled, polled, polled-Keeping, polled-Stopping, polled-Starting, noon}
use sancus_core.Sys.Ledger.{is_open}
use sancus_core.Socket.{sancus_socket, configure, set_wanted}
use sancus_core.Receiver.Life.{Gone, session, shut_down, receiver_session}
use sancus_core.Receiver.{
  World, Settings, Delivery, extract, recv_cb, nl_listen, start, stop, close, on_readable,
  on_broken, bind_receiver,
}
use sancus_core.Receiver.Messages.{Ended, Small, extract_ends, extract_hangs}
use sancus_core.Receiver.Control.{Shuts, recv_cb_control}

-- An application that keeps the places of its messages, and goes on.
abbrev keeps : Settings Polled (List ℕ)
keeps = record {
  on_message = λ m off w. pure (true, record w { app = off ∷ w.app });
  on_error = λ e w. pure w;
}

abbrev idle : World Polled (List ℕ)
idle = record {
  receiver = record { recv_watcher = record { fd = pos 6; active = true }; portid = 9 };
  loop = noon;
  app = [];
}

abbrev kernel : Kernel
kernel = record { answers = []; log = []; errno = 0 }

-- A header of a length and a type, for port 9.
abbrev header : Bytes → ℕ → Bytes
header length type = length ++ (type ∷ 0 ∷ 0 ∷ 0 ∷ 0 ∷ 0 ∷ 0 ∷ 0 ∷ 9 ∷ 0 ∷ 0 ∷ 0 ∷ [])

abbrev data_message : Bytes
data_message = header (16 ∷ 0 ∷ 0 ∷ 0 ∷ []) 20

abbrev ack : Bytes
ack = header (16 ∷ 0 ∷ 0 ∷ 0 ∷ []) 2

-- A control message that says it is 2 ^ 31 bytes long, from port 0.
abbrev endless : Bytes
endless = (0 ∷ 0 ∷ 0 ∷ 128 ∷ []) ++ replicate 12 0

abbrev delivery : Delivery
delivery = record { truncated = false; namelen = 12; buffer = ack }

field_of :
    (read 4 data_message 0 ≡ ok 16)
    × (read 2 data_message 4 ≡ ok 20)
    × (read 4 data_message 12 ≡ ok 9)
unfolding read load
field_of = (refl, refl, refl)

ack_field_of : (read 4 ack 0 ≡ ok 16) × (read 2 ack 4 ≡ ok 2) × (read 4 ack 12 ≡ ok 9)
unfolding read load
ack_field_of = (refl, refl, refl)

endless_field_of :
    (read 4 endless 0 ≡ ok 0x80000000) × (read 2 endless 4 ≡ ok 0) × (read 4 endless 12 ≡ ok 0)
unfolding read load
endless_field_of = (refl, refl, refl)

recv_cb_control_example : Ensures (Shuts polled polled-Keeping keeps idle []) (
    recv_cb polled keeps 2 delivery 1 idle
      (record { answers = done 16 ∷ done 0 ∷ []; log = []; errno = 0 }))
recv_cb_control_example =
    recv_cb_control polled polled-Keeping keeps 0 16 2 1 0 delivery idle (done 0 ∷ []) [] refl refl
      refl refl (ack_field_of.0) (ack_field_of.1) (ack_field_of.2) (omega arith) (omega arith) refl

extract_hangs_example : extract keeps 513 endless 16 idle kernel ≡ returns none kernel
extract_hangs_example =
    extract_hangs keeps endless 513 16 0x80000000 0 idle kernel (endless_field_of.0)
      (endless_field_of.1) (endless_field_of.2) (omega arith) (omega arith) refl (omega arith)
      (omega arith) (omega arith)

and_right : (a b : Bool) → (a && b) ≡ true → b ≡ true
and_right a b h = ground arith

and_left : (a b : Bool) → (a && b) ≡ true → a ≡ true
and_left a b h = ground arith

ok_injective : (a b : ℕ) → ok a ≡ ok b → a ≡ b
ok_injective a b h = cc

-- Bytes below 128 make no number of 2 ^ 31.
abbrev plain : Bytes → Bool
plain [] = true
plain (c ∷ m) = ltb c 128 && plain m

plain-drop : (n : ℕ) (m : Bytes) → plain m ≡ true → plain (drop n m) ≡ true
plain-drop zero m h = h
plain-drop (suc n) [] h = refl
plain-drop (suc n) (c ∷ m) h = plain-drop n m (and_right (ltb c 128) (plain m) h)

abbrev most : ℕ → ℕ
most zero = 0
most (suc n) = 127 + most n * 256

le-take : (n : ℕ) (m : Bytes) → plain m ≡ true → le (take n m) ≤ most n
le-take zero m h = omega arith
le-take (suc n) [] h = omega arith
le-take (suc n) (c ∷ m) h =
    let tail = le-take n m (and_right (ltb c 128) (plain m) h) in
    let here = ltb→lt c 128 (and_left (ltb c 128) (plain m) h) in omega arith

read_value : (m : Bytes) (off n : ℕ) → read 4 m off ≡ ok n → n ≡ le (take 4 (drop off m))
unfolding read load
read_value m off n h = elim (Bool-cases (leb (off + 4) (length m))) [
  | inl g ↦ ok_injective n (le (take 4 (drop off m))) (sym h ∙ rw g refl)
  | inr g ↦ absurd (let bad : fault ≡ ok n = sym (rw g refl) ∙ h in cc)
]

plain-Small : (m : Bytes) (recvbytes : ℕ) → plain m ≡ true → Small m recvbytes
plain-Small m recvbytes h off n len here e =
    let value = read_value m off n e in
    let bound = le-take 4 (drop off m) (plain-drop off m h) in omega arith

extract_ends_example : Partially Ended (extract keeps 2 data_message 16 idle kernel)
extract_ends_example =
    extract_ends keeps data_message 2 16 idle kernel (plain-Small data_message 16 refl)
      (omega arith) (omega arith)

-- A receiver that is not open yet, and a kernel that gives it descriptor 6.
abbrev unopened : World Polled (List ℕ)
unopened = record {
  receiver = record { recv_watcher = record { fd = negsuc 0; active = false }; portid = 0 };
  loop = noon;
  app = [];
}

abbrev opening : Kernel
opening = record {
  answers = done 6 ∷ done 2 ∷ done 0 ∷ done 0 ∷ done 0 ∷ done 0 ∷ [];
  log = [];
  errno = 0;
}

receiver_session_example :
    Ensures (Gone polled []) (
      session polled (nl_listen polled 0 1 9 unopened.receiver) (shut_down polled) unopened opening)
    × Ensures (Gone polled []) (
        session polled
          (nl_listen polled 0 1 9 unopened.receiver)
          (recv_cb polled keeps 2 delivery 4)
          unopened
          opening)
receiver_session_example =
    receiver_session polled polled-Keeping polled-Stopping polled-Starting keeps 2 delivery 4 0 1 9
      unopened opening refl refl (λ w k x. refl)

-- What is left of it: whether the loop ended, the watcher, and whether 6 is open.
abbrev left : Result (Option (World Polled (List ℕ))) → Bool × ℤ × Bool × Bool
left (returns (some w) k) =
    let watcher = w.receiver.recv_watcher in
    (true, watcher.fd, watcher.active, is_open (pos 6) k.log)
left r = (false, pos 0, true, true)

error_ends :
    left (
      session polled
        (nl_listen polled 0 1 9 unopened.receiver)
        (recv_cb polled keeps 2 delivery 4)
        unopened
        opening)
    ≡ (true, negsuc 0, false, false)
unfolding session start stop close recv_cb on_readable on_broken nl_listen bind_receiver
    sancus_socket configure set_wanted syscall answered close_fd close_from
error_ends = refl
