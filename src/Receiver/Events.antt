-- ===== src/Receiver/Events.antt =====
-- What an event on a netlink socket comes to.
use sancus_core.Base.{
  ℕ, suc, ◌+◌, ◌*◌, ◌^◌, ◌≤◌, Bool, true, false, not, ◌&&◌, some, ◌≡◌, refl, ap, ◌==◌, arith, leb,
  le→leb, lt→ltb, if◌then◌else◌, Bool-cases, inl, inr,
}
use sancus_core.Base.Int.{ℤ, pos, leb_ℤ, ◌-ℤ◌}
use sancus_core.Base.Memory.{Bytes}
use sancus_core.Base.Outcome.{ok}
use sancus_core.Netlink.Wire.{align, align_lem}
use sancus_core.Netlink.Msg.{nlmsg_len, nlmsg_pid, nlmsg_type, msg_ok, msg_next, portid_ok}
use sancus_core.Time.Compare.{to_int-pos}
use sancus_core.Sys.{Kernel, Result, returns, waits, aborts, Sys, pure, ◌>>=◌}
use sancus_core.Receiver.{World, Settings, extract_from, extract}

-- Two continuations that agree.
>>=-ext :
    {A B : Type 0} (r : Result A) (f g : A → Sys B)
    → ((a : A) (k : Kernel) → f a k ≡ g a k)
    → Path
        (Result B)
        (elim r [ returns a k ↦ f a k | waits ↦ waits | aborts ↦ aborts ])
        (elim r [ returns a k ↦ g a k | waits ↦ waits | aborts ↦ aborts ])
>>=-ext (returns a k) f g h = h a k
>>=-ext waits f g h = refl
>>=-ext aborts f g h = refl

-- A datagram of one message: its header says the length of the datagram.
module _ (m : Bytes) (n : ℕ) (len_is : nlmsg_len m 0 ≡ ok n) (least : 16 ≤ n)
    (most : n ≤ 65532) where
  msg_ok-whole : msg_ok m 0 (pos n) ≡ ok true
  unfolding msg_ok
  msg_ok-whole =
      rw
        (
          le→leb 16 n least,
          len_is,
          le→leb 16 n least,
          lt→ltb n (2 ^ 31) (omega arith),
          le→leb n n (omega arith),
        )
        refl

  msg_next-whole :
      (l : ℤ) × (msg_next m 0 (pos n) ≡ ok (0 + 16 * align n, l)) × (leb_ℤ (pos 16) l ≡ false)
  unfolding msg_next ◌-ℤ◌
  msg_next-whole = (pos n -ℤ pos (align n), rw len_is refl, ground (arith, align_lem n))

  msg_ok-behind : (off : ℕ) (l : ℤ) → leb_ℤ (pos 16) l ≡ false → msg_ok m off l ≡ ok false
  unfolding msg_ok
  msg_ok-behind off l h = rw h refl

same_port : (p : ℕ) → (if not (p == 0) && not (p == 0) then p == p else true) ≡ true
same_port p = ground arith

-- The result of a datagram of one message, behind the callback's.
abbrev pub verdict : {A : Type 0} → Bool → A → ℤ × A
verdict true w = (pos 1, w)
verdict false w = (pos 0, w)

module _ {W : Type 0} {A : Type 0} (settings : Settings W A) (m : Bytes) (n type : ℕ)
    (w : World W A) (len_is : nlmsg_len m 0 ≡ ok n) (type_is : nlmsg_type m 0 ≡ ok type)
    (pid_is : nlmsg_pid m 0 ≡ ok w.receiver.portid) (least : 16 ≤ n) (most : n ≤ 65532) where
  portid_ok-own : portid_ok m 0 w.receiver.portid ≡ ok true
  unfolding portid_ok
  portid_ok-own = rw pid_is (ap ok (same_port w.receiver.portid))

  -- Behind the message, the loop ends.
  ends_behind :
      (fuel off : ℕ) (l ret : ℤ) (w' : World W A) (k : Kernel)
      → leb_ℤ (pos 16) l ≡ false
      → extract_from settings (suc fuel) m off l ret w' k ≡ returns (some (ret, w')) k
  unfolding extract_from
  ends_behind fuel off l ret w' k h = rw (msg_ok-behind m n len_is least most off l h) refl

  -- A datagram that holds one message, of 16 to 65532 bytes and for the receiver's port: an
  -- application's message is given to `on_message` once, at its place, and the result is 1 where that
  -- returns true and 0 where not; a control message is not, and the result is 0.
  pub extract_one :
      (fuel : ℕ) (k : Kernel)
      → extract settings (suc (suc fuel)) m n w k
        ≡ (if leb 16 type
              then (settings.on_message m 0 w >>= λ r. pure (some (verdict (r.0) (r.1))))
              else pure (some (pos 0, w)))
            k
  unfolding extract extract_from
  extract_one fuel k =
      let (l, went, gone) = msg_next-whole m n len_is least most in
      let whole = msg_ok-whole m n len_is least most in
      let size = to_int-pos n (omega arith) in
      elim (Bool-cases (leb 16 type)) [
        | inl h ↦
            rw (size, whole, portid_ok-own, type_is, h)
              (>>=-ext (settings.on_message m 0 w k) _ _ (λ r k'. elim (Bool-cases (r.0)) [
                | inl y ↦ rw (y, went) (ends_behind fuel (0 + 16 * align n) l (pos 1) (r.1) k' gone)
                | inr y ↦ rw y refl
              ]))
        | inr h ↦
            rw (size, whole, portid_ok-own, type_is, h, went)
              (ends_behind fuel (0 + 16 * align n) l (pos 0) w k gone)
      ]
