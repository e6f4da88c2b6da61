-- ===== src/Receiver/Messages.antt =====
-- The loop over the messages of a datagram: when it ends, and a message with which it does not.
use sancus_core.Base.{
  ℕ, zero, suc, ◌+◌, ◌*◌, ◌%◌, ◌^◌, ◌≤◌, ◌<◌, Bool, true, false, ◌&&◌, Option, none, some, ◌≡◌,
  refl, sym, ap, ◌∙◌, inl, inr, Bool-cases, arith, leb, ltb, leb→le, le→leb, lt→leb-false, lt→ltb,
  if◌then◌else◌,
}
use sancus_core.Base.Int.{ℤ, pos, negsuc, pos_part, leb_ℤ, ◌-ℤ◌}
use sancus_core.Base.Memory.{Bytes}
use sancus_core.Base.Outcome
use sancus_core.Base.Outcome.{Outcome, ok, fault, abort}
use sancus_core.Base.Word.{signed32}
use sancus_core.Netlink.Wire.{align, align_lem}
use sancus_core.Netlink.Msg.{nlmsg_len, nlmsg_pid, nlmsg_type, msg_ok, msg_next, portid_ok}
use sancus_core.Time.Compare.{to_int-pos}
use sancus_core.Sys.{Kernel, returns, lift, ◌>>=◌}
use sancus_core.Sys.Rules.{Partially, >>=-Partially, lift-Partially, nothing-Partially}
use sancus_core.Receiver.{World, Settings, extract_from, extract}

and_true : (a b : Bool) → (a && b) ≡ true → (a ≡ true) × (b ≡ true)
and_true true b h = (refl, h)
and_true false b h = cc

ok_injective : {A : Type 0} → (a b : A) → ok a ≡ ok b → a ≡ b
ok_injective a b h = cc

-- What a message that is accepted shows.
accepted_header :
    (b : Bool) (o : Outcome ℕ) (len : ℤ)
    → (if b then (Outcome.◌>>=◌ o (λ n. ok (leb 16 n && leb_ℤ (signed32 n) len))) else ok false)
      ≡ ok true
    → (n : ℕ) × (o ≡ ok n) × (16 ≤ n) × (leb_ℤ (signed32 n) len ≡ true) × (b ≡ true)
accepted_header true (ok n) len h =
    let (g, e) = and_true (leb 16 n) (leb_ℤ (signed32 n) len) (ok_injective _ _ h) in
    (n, refl, leb→le 16 n g, e, refl)
accepted_header true fault len h = absurd cc
accepted_header true abort len h = absurd cc
accepted_header false o len h = absurd (let e : false ≡ true = ok_injective false true h in cc)

msg_ok-true :
    (m : Bytes) (off : ℕ) (len : ℤ)
    → msg_ok m off len ≡ ok true
    → (n : ℕ) × (nlmsg_len m off ≡ ok n)
      × (16 ≤ n)
      × (leb_ℤ (signed32 n) len ≡ true)
      × (leb_ℤ (pos 16) len ≡ true)
unfolding msg_ok
msg_ok-true m off len h = accepted_header (leb_ℤ (pos 16) len) (nlmsg_len m off) len h

-- The places that the loop may come to in a datagram of `n` bytes, with the bytes that are left.
pub data Comes (m : Bytes) (n : ℕ) : ℕ → ℤ → Type 0 where
  at_first : Comes m n 0 (pos n)
  behind :
      {off' : ℕ} {len' : ℤ} (off : ℕ) (len : ℤ)
      → Comes m n off len
      → msg_ok m off len ≡ ok true
      → msg_next m off len ≡ ok (off', len')
      → Comes m n off' len'

-- No message that it comes to says that it is 2 ^ 31 bytes long or longer.
abbrev pub Small : Bytes → ℕ → Type 0
Small m recvbytes =
    (off n : ℕ) (len : ℤ) → Comes m recvbytes off len → nlmsg_len m off ≡ ok n → n < 2 ^ 31

-- The bytes that are left behind such a message.
msg_next-left :
    (m : Bytes) (off n : ℕ) (len : ℤ) (p : ℕ × ℤ)
    → nlmsg_len m off ≡ ok n
    → msg_next m off len ≡ ok p
    → p.1 ≡ len -ℤ pos (align n)
unfolding msg_next
msg_next-left m off n len p e h =
    ap (λ q. q.1)
      (sym (ok_injective (off + 16 * align n, len -ℤ pos (align n)) p (sym (rw e refl) ∙ h)))

-- An accepted message takes at least 16 bytes.
step_down :
    (n : ℕ) (len : ℤ)
    → 16 ≤ n
    → n < 2 ^ 31
    → leb_ℤ (signed32 n) len ≡ true
    → leb_ℤ (pos 16) len ≡ true
    → pos_part len ≤ 65532
    → pos_part (len -ℤ pos (align n)) + 16 ≤ pos_part len
unfolding ◌-ℤ◌
step_down n (negsuc l) a b c d e = cc
step_down n (pos l) a b c d e =
    let small : ltb n (2 ^ 31) ≡ true = lt→ltb n (2 ^ 31) b in
    let value : signed32 n ≡ pos n = rw small refl in
    let fits : n ≤ l = leb→le n l (sym (ap (λ z. leb_ℤ z (pos l)) value) ∙ c) in
    ground (arith, align_lem n)

-- The loop has come to its end.
abbrev pub Ended : {W A : Type 0} → Option (ℤ × World W A) → Kernel → Type 0
Ended {W = W} {A = A} r k = (x : ℤ × World W A) × (r ≡ some x)

not_below : (a b : ℕ) → b ≤ a → ltb a b ≡ false
not_below a b h = ground arith

-- A message with the top bit in its length is accepted, and one of a multiple of 65536 is not left.
msg_ok-high :
    (m : Bytes) (n l : ℕ)
    → nlmsg_len m 0 ≡ ok n
    → 2 ^ 31 ≤ n
    → 16 ≤ l
    → msg_ok m 0 (pos l) ≡ ok true
unfolding msg_ok
msg_ok-high m n l e high enough =
    let low : ltb n (2 ^ 31) ≡ false = not_below n (2 ^ 31) high in
    rw (le→leb 16 l enough, e, le→leb 16 n (omega arith), low) refl

portid_ok-any :
    (m : Bytes) (off portid : ℕ) → nlmsg_pid m off ≡ ok 0 → portid_ok m off portid ≡ ok true
unfolding portid_ok
portid_ok-any m off portid e = rw e refl

msg_next-stays :
    (m : Bytes) (n l : ℕ)
    → nlmsg_len m 0 ≡ ok n
    → n < 2 ^ 32
    → n % 65536 ≡ 0
    → msg_next m 0 (pos l) ≡ ok (0, pos l)
unfolding msg_next ◌-ℤ◌
msg_next-stays m n l e bound whole =
    let none_left : align n ≡ 0 = omega (arith, align_lem n) in
    rw (e, none_left, le→leb 0 (l + 0) (omega arith)) (ap (λ x. ok (0, pos x)) (omega arith))

module _ {W : Type 0} {A : Type 0} (settings : Settings W A) (m : Bytes) (recvbytes : ℕ)
    (small : Small m recvbytes) where
  extract_from-Ended :
      (fuel off : ℕ) (len ret : ℤ) (w : World W A) (k : Kernel)
      → Comes m recvbytes off len
      → pos_part len < 16 * fuel
      → pos_part len ≤ 65532
      → Partially Ended (extract_from settings fuel m off len ret w k)
  unfolding extract_from
  extract_from-Ended zero off len ret w k here h l = absurd (omega arith)
  extract_from-Ended (suc fuel) off len ret w k here h l =
      lift-Partially Ended (msg_ok m off len) k _ (λ good said. elim (Bool-cases good) [
        | inr g ↦ rw g ((ret, w), refl)
        | inl g ↦
            let (n, e, a, b, c) = msg_ok-true m off len (said ∙ ap ok g) in
            let next : (ret' : ℤ) (w' : World W A) (k' : Kernel)
                → Partially Ended (
                    (lift (msg_next m off len) >>= λ p.
                    extract_from settings fuel m (p.0) (p.1) ret' w')
                      k') =
              λ ret' w' k'. lift-Partially Ended (msg_next m off len) k' _ (λ p went.
                let down = step_down n len a (small off n len here e) b c l in
                let left = ap pos_part (msg_next-left m off n len p e went) in
                extract_from-Ended fuel (p.0) (p.1) ret' w' k'
                  (behind off len here (said ∙ ap ok g) went) (omega arith) (omega arith)) in
            rw g (
              lift-Partially Ended (portid_ok m off w.receiver.portid) k _ (λ mine _.
                elim (Bool-cases mine) [
                  | inr f ↦ rw f ((negsuc 0, w), refl)
                  | inl f ↦ rw f (
                      lift-Partially Ended (nlmsg_type m off) k _ (λ type _.
                        elim (Bool-cases (leb 16 type)) [
                          | inr t ↦ rw t (next ret w k)
                          | inl t ↦ rw t (
                              >>=-Partially _ Ended (settings.on_message m off w k) _
                                (nothing-Partially (settings.on_message m off w k))
                                (λ r k' _. elim (Bool-cases (r.0)) [
                                  | inl y ↦ rw y (next (pos 1) (r.1) k')
                                  | inr y ↦ rw y ((pos 0, r.1), refl)
                                ]))
                        ]))
                ]))
      ])

module _ {W : Type 0} {A : Type 0} (settings : Settings W A) (m : Bytes) where
  -- A datagram of at most 65532 bytes in which no message that the loop comes to says that it is
  -- 2 ^ 31 bytes long or longer is gone through in fewer than a sixteenth of its bytes of steps, and
  -- one: the loop does not run out of fuel, whatever the callback does.
  pub extract_ends :
      (fuel recvbytes : ℕ) (w : World W A) (k : Kernel)
      → Small m recvbytes
      → recvbytes < 16 * fuel
      → recvbytes ≤ 65532
      → Partially Ended (extract settings fuel m recvbytes w k)
  unfolding extract
  extract_ends fuel recvbytes w k small h l = rw (to_int-pos recvbytes (omega arith)) (
      extract_from-Ended settings m recvbytes small fuel 0 (pos recvbytes) (pos 0) w k at_first h l)

  -- A message that says it is `n` bytes long, `n` a multiple of 65536 with the top bit, of a control
  -- type, and from port 0, in a datagram of 16 bytes or more and fewer than 2 ^ 31: the loop comes
  -- back to it for ever, on any fuel.
  pub extract_hangs :
      (fuel recvbytes n type : ℕ) (w : World W A) (k : Kernel)
      → nlmsg_len m 0 ≡ ok n
      → nlmsg_type m 0 ≡ ok type
      → nlmsg_pid m 0 ≡ ok 0
      → 2 ^ 31 ≤ n
      → n < 2 ^ 32
      → n % 65536 ≡ 0
      → type < 16
      → 16 ≤ recvbytes
      → recvbytes < 2 ^ 31
      → extract settings fuel m recvbytes w k ≡ returns none k
  unfolding extract
  extract_hangs fuel recvbytes n type w k len_is type_is pid_is high bound whole control enough
        fits =
      rw (to_int-pos recvbytes fits) (again fuel)
    where
      again :
          (fuel : ℕ) → extract_from settings fuel m 0 (pos recvbytes) (pos 0) w k ≡ returns none k
      again zero = refl
      again (suc fuel) =
          rw
            (
              msg_ok-high m n recvbytes len_is high enough,
              portid_ok-any m 0 w.receiver.portid pid_is,
              type_is,
              lt→leb-false 16 type control,
              msg_next-stays m n recvbytes len_is bound whole,
            )
            (again fuel)
