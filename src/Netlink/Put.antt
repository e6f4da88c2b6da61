-- ===== src/Netlink/Put.antt =====
-- src/netlink/netlink_attr.c: how attributes are written into a message at offset 0 of a buffer.
use sancus_core.Base.{ℕ, ◌+◌, ◌%◌, ◌^◌, Bool, true, false, ltb, leb, if◌then◌else◌}
use sancus_core.Base.Memory.{Bytes, load, store, strlen}
use sancus_core.Base.Outcome.{Outcome, ok, assert, ◌>>=◌, ◌>>◌}
use sancus_core.Base.Word.{add32}
use sancus_core.Netlink.Wire.{align, attr_hdrlen, write, to_le}
use sancus_core.Netlink.Msg.{nlmsg_len, get_payload_tail}
use sancus_core.Netlink.Attr.{get_payload}

-- `__sancus_nl_attr_put_nocheck`; `bytes` is the object that `data` leads to.
unfoldable pub put_nocheck : Bytes → ℕ → ℕ → Bytes → Outcome Bytes
put_nocheck m type len bytes = do
  attr ← get_payload_tail m 0
  let payload_len = align 4 + len
  m ← write 2 m (attr + 2) type
  m ← write 2 m attr (payload_len % 2 ^ 16)
  src ← load bytes 0 len
  m ← store m (get_payload attr) src
  n ← nlmsg_len m 0
  write 4 m 0 (add32 n (align payload_len))

-- `__sancus_nl_attr_put_check`
unfoldable pub put_check : Bytes → ℕ → ℕ → ℕ → Bytes → Outcome (Bool × Bytes)
put_check m buflen type len bytes = do
  n ← nlmsg_len m 0
  if ltb buflen ((n + attr_hdrlen + align len) % 2 ^ 32)
      then ok (false, m)
      else (put_nocheck m type len bytes >>= λ m'. ok (true, m'))

-- `sancus_nl_attr_put`: `&data` leads to the parameter, eight bytes that hold the pointer `data`.
unfoldable pub put : Bytes → ℕ → ℕ → ℕ → ℕ → Outcome (Bool × Bytes)
put m buflen type len bytes = put_check m buflen type len (to_le 8 bytes)

-- `sancus_nl_attr_put_u8`, `_u16`, `_u32` and `_u64`
unfoldable pub put_u8 : Bytes → ℕ → ℕ → ℕ → Outcome (Bool × Bytes)
put_u8 m buflen type bytes = put_check m buflen type 1 (to_le 1 bytes)

unfoldable pub put_u16 : Bytes → ℕ → ℕ → ℕ → Outcome (Bool × Bytes)
put_u16 m buflen type bytes = put_check m buflen type 2 (to_le 2 bytes)

unfoldable pub put_u32 : Bytes → ℕ → ℕ → ℕ → Outcome (Bool × Bytes)
put_u32 m buflen type bytes = put_check m buflen type 4 (to_le 4 bytes)

unfoldable pub put_u64 : Bytes → ℕ → ℕ → ℕ → Outcome (Bool × Bytes)
put_u64 m buflen type bytes = put_check m buflen type 8 (to_le 8 bytes)

-- `sancus_nl_attr_put_string` and `_put_nul_string`; `sancus_u16zu` asserts that the length fits.
unfoldable pub put_string : Bytes → ℕ → ℕ → Bytes → Outcome (Bool × Bytes)
put_string m buflen type bytes = do
  n ← strlen bytes
  assert (leb n 0xffff)
  put_check m buflen type n bytes

unfoldable pub put_nul_string : Bytes → ℕ → ℕ → Bytes → Outcome (Bool × Bytes)
put_nul_string m buflen type bytes = do
  n ← strlen bytes
  assert (leb (n + 1) 0xffff)
  put_check m buflen type (n + 1) bytes
