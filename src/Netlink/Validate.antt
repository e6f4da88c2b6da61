-- ===== src/Netlink/Validate.antt =====
-- The validation of an attribute's payload.
use sancus_core.Base.{
  ℕ, zero, suc, ◌+◌, ◌-◌, ◌≤◌, ◌<◌, ◌≡◌, ◌∙◌, refl, sym, ap, [], ◌∷◌, Bool, true, false, arith,
  length, leb, ltb, ◌==◌, ◌||◌, ◌&&◌, Bool-cases, inl, inr, ltb→lt, ltb-false→le,
}
use sancus_core.Base.Memory.{Bytes, slice, get_byte}
use sancus_core.Base.Memory.Laws.{get_byte-slice}
use sancus_core.Base.Outcome.{ok, ◌>>=◌}
use sancus_core.Netlink.Wire.{read, le}
use sancus_core.Netlink.Attr.{
  get_payload, Verdict, valid, DataType, u8, u16, u32, u64, string, nul_string, flag, nested, max,
  unspec, msecs, nested_compat, binary, minlen, by_type, validate_attr, validate_minlen,
}
use sancus_core.Netlink.Area.{Attribute, span, AttrAt, read-ok}
use sancus_core.Netlink.Parse.{get_payload_len-AttrAt}

abbrev pub is_valid : Verdict → Bool
is_valid (valid r) = true
is_valid _ = false

-- The payloads that a type allows.
abbrev pub allows : DataType → Bytes → Bool
allows u8 p = leb 1 (length p)
allows u16 p = leb 2 (length p)
allows u32 p = leb 4 (length p)
allows u64 p = leb 8 (length p)
allows string p = leb 1 (length p)
allows nul_string p = leb 1 (length p) && (get_byte p (length p - 1) == 0)
allows flag p = length p == 0
allows nested p = (length p == 0) || leb 4 (length p)
allows max p = false
allows _ p = true

one_byte : (m : Bytes) (i : ℕ) → i < length m → le (slice i 1 m) ≡ get_byte m i
one_byte [] i h = absurd (omega arith)
one_byte (c ∷ m) zero h = omega arith
one_byte (c ∷ m) (suc i) h = one_byte m i (omega arith)

last_byte :
    (m : Bytes) (off : ℕ) (a : Attribute)
    → AttrAt m off a
    → off + span a ≤ length m
    → 0 < length a.payload
    → read 1 m (get_payload off + (length a.payload - 1))
      ≡ ok (get_byte a.payload (length a.payload - 1))
last_byte m off a v h k =
    read-ok 1 m _ (omega arith)
    ∙ ap ok (
        one_byte m _ (omega arith)
        ∙ sym (get_byte-slice (off + 4) (length a.payload) (length a.payload - 1) m (omega arith))
        ∙ ap (λ (p : Bytes). get_byte p (length a.payload - 1)) v.data_eq)

-- `sancus_nl_attr_validate_minlen` of an attribute that stands inside the memory succeeds exactly
-- for the payloads that the type allows: integers have at least their width, strings are not empty,
-- NUL-terminated ones end in a NUL, flags are empty, nested attributes are empty or have a header.
pub validate_minlen_lem :
    (m : Bytes) (off : ℕ) (a : Attribute) (type : DataType)
    → AttrAt m off a
    → off + span a ≤ length m
    → (validate_minlen m off type >>= λ v. ok (is_valid v)) ≡ ok (allows type a.payload)
unfolding validate_minlen validate_attr minlen by_type
validate_minlen_lem m off a unspec v h = rw (get_payload_len-AttrAt v h) (ground arith)
validate_minlen_lem m off a u8 v h = rw (get_payload_len-AttrAt v h) (ground arith)
validate_minlen_lem m off a u16 v h = rw (get_payload_len-AttrAt v h) (ground arith)
validate_minlen_lem m off a u32 v h = rw (get_payload_len-AttrAt v h) (ground arith)
validate_minlen_lem m off a u64 v h = rw (get_payload_len-AttrAt v h) (ground arith)
validate_minlen_lem m off a string v h = rw (get_payload_len-AttrAt v h) (ground arith)
validate_minlen_lem m off a flag v h = rw (get_payload_len-AttrAt v h) (ground arith)
validate_minlen_lem m off a msecs v h = rw (get_payload_len-AttrAt v h) (ground arith)
validate_minlen_lem m off a nested v h = rw (get_payload_len-AttrAt v h) (ground arith)
validate_minlen_lem m off a nested_compat v h = rw (get_payload_len-AttrAt v h) (ground arith)
validate_minlen_lem m off a binary v h = rw (get_payload_len-AttrAt v h) (ground arith)
validate_minlen_lem m off a max v h = refl
validate_minlen_lem m off a nul_string v h =
    rw (get_payload_len-AttrAt v h) (elim (Bool-cases (ltb 0 (length a.payload))) [
      | inl e ↦ rw (last_byte m off a v h (ltb→lt _ _ e)) (ground arith)
      | inr e ↦ ground (arith, ltb-false→le _ _ e)
    ])
