-- ===== src/Netlink/Tests.antt =====
-- The netlink theorems at a message with two attributes in a buffer of 64 bytes.
use sancus_core.Base.{ℕ, ◌+◌, ◌≡◌, refl, arith, [], ◌∷◌, ◌++◌, true, false, some, replicate}
use sancus_core.Base.Int.{ℤ, pos}
use sancus_core.Base.Memory.{Bytes}
use sancus_core.Base.Outcome.{ok, ◌>>=◌}
use sancus_core.Netlink.Wire.{to_le}
use sancus_core.Netlink.Attr.{get_u32, Callback, parse, u32, validate_minlen}
use sancus_core.Netlink.Area.{Attribute, IsMsg}
use sancus_core.Netlink.Put.{put_u32}
use sancus_core.Netlink.Build.{put_u32-get_u32}
use sancus_core.Netlink.Parse.{parse_lem}
use sancus_core.Netlink.Validate.{is_valid, validate_minlen_lem}

-- An attribute of type 3 with one byte, and one of type 1 with four.
abbrev small_one : Attribute
small_one = record { type = 3; payload = 7 ∷ [] }

abbrev number : Attribute
number = record { type = 1; payload = 120 ∷ 86 ∷ 52 ∷ 18 ∷ [] }

abbrev message : Bytes
message =
    to_le 4 32
    ++ (replicate 12 0
        ++ ((5 ∷ 0 ∷ 3 ∷ 0 ∷ 7 ∷ 0 ∷ 0 ∷ 0 ∷ [])
            ++ ((8 ∷ 0 ∷ 1 ∷ 0 ∷ number.payload) ++ replicate 32 0)))

message-IsMsg : IsMsg message 32 (small_one ∷ number ∷ [])
message-IsMsg = record {
  header = refl;
  attrs = (
    record {
      len_eq = refl;
      type_eq = refl;
      data_eq = refl;
      small = omega arith;
      short = omega arith;
    },
    (
      record {
        len_eq = refl;
        type_eq = refl;
        data_eq = refl;
        small = omega arith;
        short = omega arith;
      },
      refl,
    ),
  );
  aligned = refl;
  small = omega arith;
  inside = omega arith;
}

-- A callback that counts the attributes.
abbrev count : Callback ℕ
count m off n = ok (pos 1, n + 1)

abbrev counted : Attribute → ℕ → ℤ × ℕ
counted a n = (pos 1, n + 1)

put_u32-get_u32_example :
    (m : Bytes) × (put_u32 message 64 2 77 ≡ ok (true, m))
    × IsMsg m 40 (small_one ∷ number ∷ record { type = 2; payload = to_le 4 77 } ∷ [])
    × (get_u32 m 32 ≡ ok 77)
put_u32-get_u32_example =
    put_u32-get_u32 message 32 64 (small_one ∷ number ∷ []) 2 77 message-IsMsg (omega arith)
      (omega arith) (omega arith) (omega arith) (omega arith)

parse_lem_example : parse count message 0 0 ≡ ok (some (pos 1, 2))
parse_lem_example =
    parse_lem count counted message 32 (small_one ∷ number ∷ []) 0 (λ off a s v. refl) message-IsMsg

validate_minlen_lem_example : (validate_minlen message 16 u32 >>= λ v. ok (is_valid v)) ≡ ok false
validate_minlen_lem_example =
    validate_minlen_lem message 16 small_one u32 message-IsMsg.attrs.0 (omega arith)
