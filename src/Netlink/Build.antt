-- ===== src/Netlink/Build.antt =====
-- Building a message: `sancus_nl_msg_put_header`, and the functions that put attributes.
use sancus_core.Base.{
  ℕ, ◌+◌, ◌%◌, ◌^◌, ◌≤◌, ◌<◌, ◌≡◌, ◌∙◌, refl, sym, ap, List, [], ◌∷◌, ◌++◌, true, false, arith,
  length, drop, ltb, ltb→lt, ltb-false→le, drop-take, Bool-cases, inl, inr, ◌⊎◌, replicate,
}
use sancus_core.Base.Memory.{Bytes, slice}
use sancus_core.Base.Memory.Laws.{stored, store-ok, length-stored}
use sancus_core.Base.Outcome.{ok}
use sancus_core.Netlink.Wire.{align, align_lem, le, to_le, le-to_le_4}
use sancus_core.Netlink.Msg.{put_header}
use sancus_core.Netlink.Attr.{get_u32}
use sancus_core.Netlink.Area.{
  Attribute, span, IsMsg, Holds-last, Agree-after, read-ok, write-ok, slice-own,
}
use sancus_core.Netlink.Put.{put_check, put_u32}
use sancus_core.Netlink.Layout.{nlmsg_len-IsMsg, added, put_nocheck-ok, added-IsMsg}

pub put_check_lem :
    (m : Bytes) (len buflen : ℕ) (xs : List Attribute) (a : Attribute)
    → IsMsg m len xs
    → a.type < 2 ^ 16
    → length a.payload ≤ 65528
    → buflen ≤ length m
    → buflen ≤ 65532
    → ((len + span a ≤ buflen)
        × ((m' : Bytes) × (put_check m buflen a.type (length a.payload) a.payload ≡ ok (true, m'))
            × IsMsg m' (len + span a) (xs ++ (a ∷ []))))
      ⊎ ((buflen < len + span a)
          × (put_check m buflen a.type (length a.payload) a.payload ≡ ok (false, m)))
unfolding put_check
put_check_lem m len buflen xs a v small short inside max =
    elim (Bool-cases (ltb buflen (len + span a))) [
      | inl e ↦ inr (ltb→lt _ _ e, rw (nlmsg_len-IsMsg v, need, e))
      | inr e ↦
          let f : len + span a ≤ buflen = ltb-false→le _ _ e in
          inl (
            f,
            (
              added m len a,
              rw (
                nlmsg_len-IsMsg v,
                need,
                e,
                put_nocheck-ok m len a xs v small (omega arith) (omega arith),
              ),
              added-IsMsg m len a xs v small (omega arith) (omega arith),
            ),
          )
    ]
  where
    need : (len + 4 + align (length a.payload)) % 2 ^ 32 ≡ len + span a
    need = rw (align_lem (length a.payload)) (omega (arith, v.small))

-- In a buffer of 16 bytes or more, `sancus_nl_msg_put_header` leaves a message without attributes,
-- whose other header fields are 0.
pub put_header_lem :
    (m : Bytes)
    → 16 ≤ length m
    → (m' : Bytes) × (put_header m ≡ ok m') × IsMsg m' 16 [] × (slice 4 12 m' ≡ replicate 12 0)
unfolding put_header align
put_header_lem m h = (
  stored cleared 0 (to_le 4 16),
  rw (store-ok m 0 (replicate 16 0) h, write-ok 4 cleared 0 16 room),
  record {
    header = slice-own cleared 0 (to_le 4 16) room;
    attrs = refl;
    aligned = refl;
    small = omega arith;
    inside = omega (arith, length-stored cleared 0 (to_le 4 16) room, same);
  },
  Agree-after cleared 0 (to_le 4 16) 16 room 4 12 (omega arith) (omega arith)
      ∙ sym (drop-take 4 16 12 cleared refl)
      ∙ ap (drop 4) (slice-own m 0 (replicate 16 0) h),
)
  where
    cleared : Bytes
    cleared = stored m 0 (replicate 16 0)

    same : length cleared ≡ length m
    same = length-stored m 0 (replicate 16 0) h

    room : 4 ≤ length cleared
    room = omega (arith, same)

-- Where a 32-bit integer fits behind a message, `sancus_nl_attr_put_u32` puts an attribute that
-- holds it, and `sancus_nl_attr_get_u32` of that attribute returns it.
pub put_u32-get_u32 :
    (m : Bytes) (len buflen : ℕ) (xs : List Attribute) (type x : ℕ)
    → IsMsg m len xs
    → type < 2 ^ 16
    → x < 2 ^ 32
    → len + 8 ≤ buflen
    → buflen ≤ length m
    → buflen ≤ 65532
    → (m' : Bytes) × (put_u32 m buflen type x ≡ ok (true, m'))
      × IsMsg m' (len + 8) (xs ++ (record { type = type; payload = to_le 4 x } ∷ []))
      × (get_u32 m' len ≡ ok x)
unfolding put_u32
put_u32-get_u32 m len buflen xs type x v small h fits inside max =
    elim (put_check_lem m len buflen xs a v small (omega arith) inside max) [
      | inl (f, (m', e, w)) ↦ (m', e, w, back m' w)
      | inr (f, e) ↦ absurd (omega arith)
    ]
  where
    a : Attribute
    a = record { type = type; payload = to_le 4 x }

    back : (m' : Bytes) → IsMsg m' (len + 8) (xs ++ (a ∷ [])) → get_u32 m' len ≡ ok x
    back m' w =
        let u = Holds-last m' m 16 xs len a v.attrs w.attrs in
        read-ok 4 m' (len + 4) (omega (arith, w.inside)) ∙ ap ok (ap le u.data_eq ∙ le-to_le_4 x h)
