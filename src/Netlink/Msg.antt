-- ===== src/Netlink/Msg.antt =====
-- src/netlink/netlink_msg.c. A `struct nlmsghdr *` is an offset into the memory that holds it; the
-- functions that write take the message at offset 0.
use sancus_core.Base.{
  ℕ, ◌+◌, ◌*◌, Bool, true, false, not, ◌&&◌, leb, ◌==◌, if◌then◌else◌, replicate,
}
use sancus_core.Base.Int.{ℤ, pos, leb_ℤ, ◌-ℤ◌}
use sancus_core.Base.Memory.{Bytes, store}
use sancus_core.Base.Outcome.{Outcome, ok, ◌>>=◌}
use sancus_core.Base.Word.{add32, signed32}
use sancus_core.Netlink.Wire.{align, msg_hdrlen, read, write}

-- `nlh->nlmsg_len`, `nlmsg_type` and `nlmsg_pid`
abbrev pub nlmsg_len : Bytes → ℕ → Outcome ℕ
nlmsg_len m off = read 4 m off

abbrev pub nlmsg_type : Bytes → ℕ → Outcome ℕ
nlmsg_type m off = read 2 m (off + 4)

abbrev pub nlmsg_pid : Bytes → ℕ → Outcome ℕ
nlmsg_pid m off = read 4 m (off + 12)

-- `sancus_nl_msg_ok`; the length in the header is not read where the first test fails.
unfoldable pub msg_ok : Bytes → ℕ → ℤ → Outcome Bool
msg_ok m off len =
    if leb_ℤ (pos 16) len
    then (do n ← nlmsg_len m off; ok (leb 16 n && leb_ℤ (signed32 n) len))
    else ok false

-- `sancus_nl_msg_next`: the addition is to a `struct nlmsghdr *`, so it counts in headers of 16
-- bytes.
unfoldable pub msg_next : Bytes → ℕ → ℤ → Outcome (ℕ × ℤ)
msg_next m off len = do n ← nlmsg_len m off; ok (off + 16 * align n, len -ℤ pos (align n))

-- `sancus_nl_msg_portid_ok`
unfoldable pub portid_ok : Bytes → ℕ → ℕ → Outcome Bool
portid_ok m off portid = do
  pid ← nlmsg_pid m off
  ok (if not (pid == 0) && not (portid == 0) then pid == portid else true)

-- `sancus_nl_msg_get_payload`, `_payload_offset` and `_payload_tail`
abbrev pub get_payload : ℕ → ℕ
get_payload off = off + msg_hdrlen

abbrev pub get_payload_offset : ℕ → ℕ → ℕ
get_payload_offset off offset = off + msg_hdrlen + align offset

abbrev pub get_payload_tail : Bytes → ℕ → Outcome ℕ
get_payload_tail m off = nlmsg_len m off >>= λ n. ok (off + align n)

-- `sancus_nl_msg_put_header`
unfoldable pub put_header : Bytes → Outcome Bytes
put_header m = do m ← store m 0 (replicate (align 16) 0); write 4 m 0 (align 16)

-- `sancus_nl_msg_put_extra_header`, with the place of the new header.
unfoldable pub put_extra_header : Bytes → ℕ → Outcome (ℕ × Bytes)
put_extra_header m size = do
  n ← nlmsg_len m 0
  m ← store m n (replicate (align size) 0)
  m ← write 4 m 0 (add32 n (align size))
  ok (n, m)
