-- ===== src/Netlink/Layout.antt =====
-- The bytes of a message behind which an attribute is put.
use sancus_core.Base.{
  ℕ, ◌+◌, ◌%◌, ◌^◌, ◌≤◌, ◌<◌, ◌≡◌, ◌∙◌, refl, ap, List, [], ◌∷◌, ◌++◌, arith, length, take-all,
}
use sancus_core.Base.Memory.{Bytes, load}
use sancus_core.Base.Memory.Laws.{stored, store-ok, length-stored, load_front}
use sancus_core.Base.Outcome.{ok}
use sancus_core.Base.Word.{add32}
use sancus_core.Netlink.Wire.{align, le, to_le, le-to_le_4}
use sancus_core.Netlink.Msg.{nlmsg_len, get_payload_tail}
use sancus_core.Netlink.Area.{
  Attribute, span, AttrAt, IsMsg, align_id, align-span, Holds-le, Agree, Agree-before, Agree-after,
  Holds-Agree, Holds-append, read-ok, write-ok, slice-own,
}
use sancus_core.Netlink.Put.{put_nocheck}

pub nlmsg_len-IsMsg :
    {m : Bytes} {len : ℕ} {xs : List Attribute} → IsMsg m len xs → nlmsg_len m 0 ≡ ok len
nlmsg_len-IsMsg {m} {len} {xs} v =
    read-ok 4 m 0 (omega (arith, Holds-le m 16 xs len v.attrs, v.inside))
    ∙ ap ok (ap le v.header ∙ le-to_le_4 len (omega (arith, v.small)))

pub get_payload_tail-IsMsg :
    {m : Bytes} {len : ℕ} {xs : List Attribute} → IsMsg m len xs → get_payload_tail m 0 ≡ ok len
get_payload_tail-IsMsg {m} {len} v =
    rw (nlmsg_len-IsMsg v, align_id len v.aligned v.small) (ap ok (omega arith))

-- The length that the code puts in an attribute's header, and the payload that it copies.
pub header_len : (n : ℕ) → align 4 + n ≡ 4 + n
unfolding align
header_len n = refl

pub load_all : (s : Bytes) → load s 0 (length s) ≡ ok s
load_all s = load_front s (length s) (omega arith) ∙ ap ok (take-all (length s) s (omega arith))

-- The bytes of a message once an attribute is put behind it.
module _ (m : Bytes) (len : ℕ) (a : Attribute) where
  abbrev pub typed : Bytes
  typed = stored m (len + 2) (to_le 2 a.type)

  abbrev pub sized : Bytes
  sized = stored typed len (to_le 2 (4 + length a.payload))

  abbrev pub filled : Bytes
  filled = stored sized (len + 4) a.payload

  abbrev pub added : Bytes
  added = stored filled 0 (to_le 4 (len + span a))

  module _ (xs : List Attribute) (v : IsMsg m len xs) (small : a.type < 2 ^ 16)
      (fits : len + span a ≤ length m) (short : len + span a ≤ 65532) where
    start : 16 ≤ len
    start = Holds-le m 16 xs len v.attrs

    length-typed : length typed ≡ length m
    length-typed = length-stored m (len + 2) (to_le 2 a.type) (omega arith)

    length-sized : length sized ≡ length m
    length-sized =
        length-stored typed len (to_le 2 (4 + length a.payload)) (omega (arith, length-typed))
        ∙ length-typed

    length-filled : length filled ≡ length m
    length-filled =
        length-stored sized (len + 4) a.payload (omega (arith, length-sized)) ∙ length-sized

    length-added : length added ≡ length m
    length-added =
        length-stored filled 0 (to_le 4 (len + span a)) (omega (arith, length-filled, start))
        ∙ length-filled

    kept : Agree m filled 0 len
    kept p n l e =
        Agree-before sized (len + 4) a.payload 0 (omega (arith, length-sized)) p n l (omega arith)
        ∙ Agree-before typed len (to_le 2 (4 + length a.payload)) 0 (omega (arith, length-typed)) p
            n l e
        ∙ Agree-before m (len + 2) (to_le 2 a.type) 0 (omega arith) p n l (omega arith)

    behind : Agree filled added 4 (length m)
    behind p n l e =
        Agree-after filled 0 (to_le 4 (len + span a)) (length m)
          (omega (arith, length-filled, start)) p n (omega arith) e

    nlmsg_len-filled : nlmsg_len filled 0 ≡ ok len
    nlmsg_len-filled =
        read-ok 4 filled 0 (omega (arith, length-filled, start))
        ∙ ap ok (
            ap le (kept 0 4 (omega arith) (omega (arith, start)) ∙ v.header)
            ∙ le-to_le_4 len (omega arith))

    pub put_nocheck-ok : put_nocheck m a.type (length a.payload) a.payload ≡ ok added
    unfolding put_nocheck
    put_nocheck-ok = rw (
      get_payload_tail-IsMsg v,
      write-ok 2 m (len + 2) a.type (omega arith),
      header_len (length a.payload),
      fit_16,
      write-ok 2 typed len (4 + length a.payload) (omega (arith, length-typed)),
      load_all a.payload,
      store-ok sized (len + 4) a.payload (omega (arith, length-sized)),
      nlmsg_len-filled,
      align-span a (omega arith),
      fit_32,
      write-ok 4 filled 0 (len + span a) (omega (arith, length-filled, start)),
    )
      where
        fit_16 : (4 + length a.payload) % 2 ^ 16 ≡ 4 + length a.payload
        fit_16 = omega arith

        fit_32 : add32 len (span a) ≡ len + span a
        fit_32 = omega arith

    AttrAt-filled : AttrAt filled len a
    AttrAt-filled = record {
      len_eq =
          Agree-before sized (len + 4) a.payload 0 (omega (arith, length-sized)) len 2 (omega arith)
            (omega arith)
          ∙ slice-own typed len (to_le 2 (4 + length a.payload)) (omega (arith, length-typed));
      type_eq =
          Agree-before sized (len + 4) a.payload 0 (omega (arith, length-sized)) (len + 2) 2
            (omega arith) (omega arith)
          ∙ Agree-after typed len (to_le 2 (4 + length a.payload)) (length m)
              (omega (arith, length-typed)) (len + 2) 2 (omega arith) (omega arith)
          ∙ slice-own m (len + 2) (to_le 2 a.type) (omega arith);
      data_eq = slice-own sized (len + 4) a.payload (omega (arith, length-sized));
      small = small;
      short = omega arith;
    }

    pub added-IsMsg : IsMsg added (len + span a) (xs ++ (a ∷ []))
    added-IsMsg = record {
      header = slice-own filled 0 (to_le 4 (len + span a)) (omega (arith, length-filled, start));
      attrs =
          Holds-Agree filled added 4 16 (xs ++ (a ∷ [])) (len + span a)
            (λ p n l e. behind p n l (omega arith)) (omega arith)
            (Holds-append filled 16 xs len a
              (Holds-Agree m filled 0 16 xs len kept (omega arith) v.attrs) AttrAt-filled);
      aligned = omega (arith, v.aligned);
      small = short;
      inside = omega (arith, length-added);
    }
