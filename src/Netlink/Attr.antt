-- ===== src/Netlink/Attr.antt =====
-- src/netlink/netlink_attr.c. A `struct nlattr *` is an offset into the memory that holds it.
use Prim.Native.Nat.{bit_and}
use sancus_core.Base.{
  ℕ, zero, suc, ◌+◌, ◌-◌, ◌%◌, ◌^◌, Bool, true, false, ◌&&◌, Option, none, some, leb, ltb, ◌==◌,
  if◌then◌else◌,
}
use sancus_core.Base.Int.{ℤ, pos, leb_ℤ, sub_ℕ}
use sancus_core.Base.Memory.{Bytes}
use sancus_core.Base.Outcome.{Outcome, ok, ◌>>=◌}
use sancus_core.Netlink.Wire.{align, attr_hdrlen, read}
use sancus_core.Netlink.Msg.{get_payload_offset, get_payload_tail}

-- `attr->nla_len` and `attr->nla_type`
abbrev pub nla_len : Bytes → ℕ → Outcome ℕ
nla_len m a = read 2 m a

abbrev pub nla_type : Bytes → ℕ → Outcome ℕ
nla_type m a = read 2 m (a + 2)

-- `sancus_nl_attr_get_type` (`NLA_TYPE_MASK` leaves out the two flags), `_len`, `_payload_len`
-- and `_payload`
unfoldable pub get_type : Bytes → ℕ → Outcome ℕ
get_type m a = nla_type m a >>= λ t. ok (bit_and t 0x3fff)

abbrev pub get_len : Bytes → ℕ → Outcome ℕ
get_len m a = nla_len m a

unfoldable pub get_payload_len : Bytes → ℕ → Outcome ℕ
get_payload_len m a = nla_len m a >>= λ n. ok ((n + 2 ^ 16 - attr_hdrlen) % 2 ^ 16)

abbrev pub get_payload : ℕ → ℕ
get_payload a = a + attr_hdrlen

-- `sancus_nl_attr_get_string`, as the place of the text.
abbrev get_string : ℕ → ℕ
get_string a = get_payload a

-- `sancus_nl_attr_ok`
unfoldable pub attr_ok : Bytes → ℕ → ℤ → Outcome Bool
attr_ok m a len =
    if leb_ℤ (pos 4) len then (do n ← nla_len m a; ok (leb 4 n && leb_ℤ (pos n) len)) else ok false

-- `sancus_nl_attr_next`
unfoldable pub attr_next : Bytes → ℕ → Outcome ℕ
attr_next m a = nla_len m a >>= λ n. ok (a + align n)

-- What a validation returns: 0 or 1 for success, or -1 with `errno`.
pub data Verdict : Type 0 where
  valid : ℤ → Verdict
  eopnotsupp erange einval : Verdict

-- `sancus_nl_attr_type_valid`
unfoldable pub type_valid : Bytes → ℕ → ℕ → Outcome Verdict
type_valid m a max = get_type m a >>= λ t. ok (if ltb max t then eopnotsupp else valid (pos 1))

-- `enum sancus_nl_attr_data_type`
pub data DataType : Type 0 where
  unspec u8 u16 u32 u64 string flag msecs nested nested_compat nul_string binary max : DataType

-- `sancus_nl_attr_data_type_minlen`
unfoldable pub minlen : DataType → ℕ
minlen u8 = 1
minlen u16 = 2
minlen u32 = 4
minlen u64 = 8
minlen string = 1
minlen nul_string = 1
minlen _ = 0

-- The switch of `validate_attr`.
unfoldable pub by_type : Bytes → ℕ → DataType → ℕ → Outcome Verdict
by_type m a flag len = ok (if ltb 0 len then erange else valid (pos 0))
by_type m a string len = ok (if len == 0 then erange else valid (pos 0))
by_type m a nul_string len = if len == 0 then ok erange else (do
  c ← read 1 m (get_payload a + (len - 1))
  ok (if c == 0 then valid (pos 0) else einval))
by_type m a nested len =
    ok (if len == 0 then valid (pos 0) else if ltb len attr_hdrlen then erange else valid (pos 0))
by_type m a _ len = ok (valid (pos 0))

-- `validate_attr`
unfoldable pub validate_attr : Bytes → ℕ → DataType → ℕ → Outcome Verdict
unfolding by_type
validate_attr m a type expected = do
  len ← get_payload_len m a
  if ltb len expected then ok erange else by_type m a type len

-- `sancus_nl_attr_validate_minlen` and `_explen`
unfoldable pub validate_minlen : Bytes → ℕ → DataType → Outcome Verdict
validate_minlen m a max = ok einval
validate_minlen m a type = validate_attr m a type (minlen type)

unfoldable pub validate_explen : Bytes → ℕ → DataType → ℕ → Outcome Verdict
validate_explen m a max explen = ok einval
validate_explen m a type explen = validate_attr m a type explen

-- A `sancus_nl_attr_parse_cb`, over the state that its `data` points to.
abbrev pub Callback : Type 0 → Type 0
Callback S = Bytes → ℕ → S → Outcome (ℤ × S)

-- The loop of `sancus_nl_attr_parse`, over `sancus_nl_attr_foreach`; `tail` is the end of the
-- message. `none` means that the fuel ran out.
unfoldable pub parse_from :
    {S : Type 0} → Callback S → ℕ → Bytes → ℕ → ℕ → ℤ → S → Outcome (Option (ℤ × S))
parse_from cb zero m tail a ret s = ok none
parse_from cb (suc fuel) m tail a ret s = do
  more ← attr_ok m a (sub_ℕ tail a)
  elim more [
    | false ↦ ok (some (ret, s))
    | true ↦ (do
      (ret', s') ← cb m a s
      elim (leb_ℤ ret' (pos 0)) [
        | true ↦ ok (some (ret', s'))
        | false ↦ (do a' ← attr_next m a; parse_from cb fuel m tail a' ret' s')
      ])
  ]

-- `sancus_nl_attr_parse` of the message at 0; each round moves on, so the end is fuel enough.
unfoldable pub parse : {S : Type 0} → Callback S → Bytes → ℕ → S → Outcome (Option (ℤ × S))
parse cb m offset s = do
  tail ← get_payload_tail m 0
  parse_from cb (suc tail) m tail (get_payload_offset 0 offset) (pos 1) s

-- `sancus_nl_attr_get_u8`, `_u16`, `_u32` and `_u64`
abbrev pub get_u8 : Bytes → ℕ → Outcome ℕ
get_u8 m a = read 1 m (get_payload a)

abbrev pub get_u16 : Bytes → ℕ → Outcome ℕ
get_u16 m a = read 2 m (get_payload a)

abbrev pub get_u32 : Bytes → ℕ → Outcome ℕ
get_u32 m a = read 4 m (get_payload a)

abbrev pub get_u64 : Bytes → ℕ → Outcome ℕ
get_u64 m a = read 8 m (get_payload a)
