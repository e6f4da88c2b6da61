-- ===== src/Netlink/Defects.antt =====
-- Where the netlink functions depart from what they are for.
use sancus_core.Base.{ℕ, ◌+◌, ◌*◌, ◌≡◌, refl, ap, List, arith}
use sancus_core.Base.Int.{ℤ, ◌-ℤ◌, pos}
use sancus_core.Base.Memory.{Bytes}
use sancus_core.Base.Outcome.{ok}
use sancus_core.Netlink.Msg.{msg_next}
use sancus_core.Netlink.Area.{Attribute, IsMsg, align_id}
use sancus_core.Netlink.Layout.{nlmsg_len-IsMsg}
use sancus_core.Netlink.Put.{put, put_u64}

-- The address that `sancus_nl_msg_next` returns for a message is 15 times the message's length
-- behind the end of the message, while the length left is less by the message's length once.
pub msg_next_strides :
    (m : Bytes) (len : ℕ) (xs : List Attribute) (left : ℤ)
    → IsMsg m len xs
    → msg_next m 0 left ≡ ok (len + 15 * len, left -ℤ pos len)
unfolding msg_next
msg_next_strides m len xs left v =
    rw (nlmsg_len-IsMsg v, align_id len v.aligned v.small)
      (ap (λ (n : ℕ). ok (n, left -ℤ pos len)) (omega arith))

-- `sancus_nl_attr_put` of eight bytes puts the address of the data, as `sancus_nl_attr_put_u64`
-- would, whatever the data is.
pub put-put_u64 :
    (m : Bytes) (buflen type address : ℕ)
    → put m buflen type 8 address ≡ put_u64 m buflen type address
unfolding put put_u64
put-put_u64 m buflen type address = refl
