-- ===== src/Netlink/Parse.antt =====
-- Reading a message: the accessors of an attribute, and `sancus_nl_attr_parse`.
use sancus_core.Base.{
  ℕ, zero, suc, ◌+◌, ◌-◌, ◌*◌, ◌%◌, ◌^◌, ◌≤◌, ◌<◌, ◌≡◌, ◌∙◌, refl, sym, ap, List, [], ◌∷◌, Bool,
  true, false, arith, length, le→leb, if◌then◌else◌, Option, some, Bool-cases, inl, inr,
}
use sancus_core.Base.Bits.{bit_and_3fff}
use sancus_core.Base.Int.{ℤ, pos, leb_ℤ, sub_ℕ}
use sancus_core.Base.Memory.{Bytes, load}
use sancus_core.Base.Memory.Laws.{load-ok}
use sancus_core.Base.Outcome.{Outcome, ok, ◌>>=◌}
use sancus_core.Netlink.Wire.{align, le, le-to_le_2}
use sancus_core.Netlink.Attr.{
  nla_len, nla_type, get_type, get_payload_len, get_payload, attr_ok, attr_next, Callback,
  parse_from, parse,
}
use sancus_core.Netlink.Area.{Attribute, span, AttrAt, Holds, IsMsg, align-span, Holds-le, read-ok}
use sancus_core.Netlink.Layout.{get_payload_tail-IsMsg}

module _ {m : Bytes} {off : ℕ} {a : Attribute} (v : AttrAt m off a)
    (inside : off + span a ≤ length m) where
  nla_len-AttrAt : nla_len m off ≡ ok (4 + length a.payload)
  nla_len-AttrAt =
      read-ok 2 m off (omega arith)
      ∙ ap ok (ap le v.len_eq ∙ le-to_le_2 (4 + length a.payload) (omega (arith, v.short)))

  nla_type-AttrAt : nla_type m off ≡ ok a.type
  nla_type-AttrAt =
      read-ok 2 m (off + 2) (omega arith) ∙ ap ok (ap le v.type_eq ∙ le-to_le_2 a.type v.small)

  pub get_payload_len-AttrAt : get_payload_len m off ≡ ok (length a.payload)
  unfolding get_payload_len
  get_payload_len-AttrAt = rw nla_len-AttrAt (ap ok (omega (arith, v.short)))

-- Of an attribute that stands inside the memory, the accessors return the type without its two
-- flags and the length of the payload, and the bytes at the payload's address are the payload.
pub accessors_lem :
    (m : Bytes) (off : ℕ) (a : Attribute)
    → AttrAt m off a
    → off + span a ≤ length m
    → (get_type m off ≡ ok (a.type % 2 ^ 14))
      × (get_payload_len m off ≡ ok (length a.payload))
      × (load m (get_payload off) (length a.payload) ≡ ok a.payload)
unfolding get_type
accessors_lem m off a v h = (
  rw (nla_type-AttrAt v h) (ap ok (bit_and_3fff a.type)),
  get_payload_len-AttrAt v h,
  load-ok m (off + 4) (length a.payload) (omega arith) ∙ ap ok v.data_eq,
)

attr_ok-end : (m : Bytes) (off : ℕ) → attr_ok m off (sub_ℕ off off) ≡ ok false
unfolding attr_ok
attr_ok-end m off = ground arith

attr_ok-AttrAt :
    (m : Bytes) (off tail : ℕ) (a : Attribute)
    → AttrAt m off a
    → off + span a ≤ tail
    → tail ≤ length m
    → attr_ok m off (sub_ℕ tail off) ≡ ok true
unfolding attr_ok
attr_ok-AttrAt m off tail a v h k = rw (
  left,
  le→leb 4 (tail - off) (omega arith),
  nla_len-AttrAt v (omega arith),
  le→leb 4 (4 + length a.payload) (omega arith),
  le→leb (4 + length a.payload) (tail - off) (omega arith),
)
  where
    left : sub_ℕ tail off ≡ pos (tail - off)
    left = ground arith

attr_next-AttrAt :
    (m : Bytes) (off : ℕ) (a : Attribute)
    → AttrAt m off a
    → off + span a ≤ length m
    → attr_next m off ≡ ok (off + span a)
unfolding attr_next
attr_next-AttrAt m off a v h = rw (nla_len-AttrAt v h, align-span a v.short)

-- What the callback makes of the attributes one after the other, until it returns 0 or less.
abbrev pub visit : {S : Type 0} → (Attribute → S → ℤ × S) → List Attribute → ℤ → S → ℤ × S
visit f [] ret s = (ret, s)
visit f (a ∷ xs) ret s =
    let r = f a s in let rest = visit f xs r.0 r.1 in if leb_ℤ r.0 (pos 0) then r else rest

parse_from_lem :
    {S : Type 0} (cb : Callback S) (f : Attribute → S → ℤ × S) (m : Bytes) (fuel off tail : ℕ)
    (xs : List Attribute) (ret : ℤ) (s : S)
    → ((off : ℕ) (a : Attribute) (s : S) → AttrAt m off a → cb m off s ≡ ok (f a s))
    → Holds m off xs tail
    → tail ≤ length m
    → length xs < fuel
    → parse_from cb fuel m tail off ret s ≡ ok (some (visit f xs ret s))
unfolding parse_from
parse_from_lem cb f m zero off tail xs ret s c w h l = elim l [ ]
parse_from_lem cb f m (suc fuel) off tail [] ret s c e h l = rw (sym e, attr_ok-end m off)
parse_from_lem {S} cb f m (suc fuel) off tail (a ∷ xs) ret s c (v, w) h l =
    step ∙ elim (Bool-cases (leb_ℤ (f a s).0 (pos 0))) [
      | inl e ↦ rw e
      | inr e ↦
          rw (e, attr_next-AttrAt m off a v (omega (arith, behind)))
            (parse_from_lem cb f m fuel (off + span a) tail xs (f a s).0 (f a s).1 c w h
              (omega arith))
    ]
  where
    behind : off + span a ≤ tail
    behind = Holds-le m (off + span a) xs tail w

    onward : Bool → Outcome (Option (ℤ × S))
    onward true = ok (some (f a s))
    onward false = attr_next m off >>= λ next. parse_from cb fuel m tail next (f a s).0 (f a s).1

    step : parse_from cb (suc fuel) m tail off ret s ≡ onward (leb_ℤ (f a s).0 (pos 0))
    step = rw (attr_ok-AttrAt m off tail a v behind h, c off a s v) refl

length-Holds :
    (m : Bytes) (off : ℕ) (xs : List Attribute) (tail : ℕ)
    → Holds m off xs tail
    → off + 4 * length xs ≤ tail
length-Holds m off [] tail e = omega arith
length-Holds m off (a ∷ xs) tail (v, w) = omega (arith, length-Holds m (off + span a) xs tail w)

-- Parsing a message without an extra header runs the callback on its attributes, in their order,
-- until it returns 0 or less, and returns what it returned last, or 1 without attributes. It ends,
-- and reads nothing outside the message. The callback reads an attribute it is given and succeeds.
pub parse_lem :
    {S : Type 0} (cb : Callback S) (f : Attribute → S → ℤ × S) (m : Bytes) (len : ℕ)
    (xs : List Attribute) (s : S)
    → ((off : ℕ) (a : Attribute) (s : S) → AttrAt m off a → cb m off s ≡ ok (f a s))
    → IsMsg m len xs
    → parse cb m 0 s ≡ ok (some (visit f xs (pos 1) s))
unfolding parse align
parse_lem cb f m len xs s c v = rw (get_payload_tail-IsMsg v) (
    parse_from_lem cb f m (suc len) 16 len xs (pos 1) s c v.attrs v.inside
      (omega (arith, length-Holds m 16 xs len v.attrs)))
