-- ===== src/Netlink/Wire.antt =====
-- Alignment (`SANCUS_NL_ALIGN`) and the integers in the headers.
use Prim.Native.Nat.{bit_and}
use sancus_core.Base.{
  ℕ, zero, suc, ◌+◌, ◌*◌, ◌/◌, ◌%◌, ◌^◌, ◌<◌, ◌≡◌, ◌∙◌, refl, [], ◌∷◌, arith, length,
}
use sancus_core.Base.Bits.{bit_and_fffc}
use sancus_core.Base.Memory.{Bytes, load, store}
use sancus_core.Base.Outcome.{Outcome, ok, ◌>>=◌}

-- `SANCUS_NL_ALIGN`, with its conversion to `unsigned` and its 16-bit mask.
unfoldable pub align : ℕ → ℕ
align n = bit_and ((n + 3) % 2 ^ 32) 0xfffc

-- `SANCUS_NL_MSG_HDRLEN` and `SANCUS_NL_ATTR_HDRLEN`
abbrev pub msg_hdrlen : ℕ
msg_hdrlen = 16

abbrev pub attr_hdrlen : ℕ
attr_hdrlen = 4

pub align_lem : (n : ℕ) → align n ≡ (n + 3) % 65536 / 4 * 4
unfolding align
align_lem n = bit_and_fffc ((n + 3) % 2 ^ 32) ∙ omega arith

-- The constants are what the macros come to.
align_headers : (align 16 ≡ msg_hdrlen) × (align 4 ≡ attr_hdrlen)
unfolding align
align_headers = (refl, refl)

-- The number that `k` bytes stand for, and the `k` bytes of a number.
abbrev pub le : Bytes → ℕ
le [] = 0
le (c ∷ s) = c + le s * 256

abbrev pub to_le : ℕ → ℕ → Bytes
to_le zero x = []
to_le (suc k) x = x % 256 ∷ to_le k (x / 256)

pub length-to_le : (k x : ℕ) → length (to_le k x) ≡ k
length-to_le zero x = refl
length-to_le (suc k) x = omega (arith, length-to_le k (x / 256))

pub le-to_le_2 : (x : ℕ) → x < 2 ^ 16 → le (to_le 2 x) ≡ x
le-to_le_2 x h = omega arith

pub le-to_le_4 : (x : ℕ) → x < 2 ^ 32 → le (to_le 4 x) ≡ x
le-to_le_4 x h = omega arith

-- A read of a field of `k` bytes.
unfoldable pub read : ℕ → Bytes → ℕ → Outcome ℕ
read k m off = load m off k >>= λ s. ok (le s)

unfoldable pub write : ℕ → Bytes → ℕ → ℕ → Outcome Bytes
write k m off x = store m off (to_le k x)
