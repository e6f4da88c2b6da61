-- ===== src/Buffer/Runs.antt =====
-- A buffer against a text with a capacity, over any sequence of operations.
use sancus_core.Base.{
  ℕ, ◌+◌, ◌-◌, ◌^◌, ◌<◌, ◌≡◌, refl, ap, sym, ◌∙◌, Bool, Option, none, some, List, [], ◌∷◌, ◌++◌,
  arith, length, take, min,
}
use sancus_core.Base.Int.{ℤ, pos}
use sancus_core.Base.Memory.{Bytes}
use sancus_core.Base.Outcome.{Outcome, ok, fault, ◌>>=◌}
use sancus_core.Buffer.{Buffer, Printer, init, append, appendv, truncate, stripn}
use sancus_core.Buffer.Inv.{IsValid, contents, room, Extends, Cuts, length-contents, init-IsValid}
use sancus_core.Buffer.Append.{accepted, reply, append_lem}
use sancus_core.Buffer.Chunk.{Prints}
use sancus_core.Buffer.Print.{printed, printed_reply, appendv_lem}
use sancus_core.Buffer.Strip.{truncate_lem, stripn_lem}

-- `sancus_buffer__append` of a text, `sancus_buffer__appendv` with what it renders,
-- `sancus_buffer_truncate` (`sancus_buffer_reset` at 0) and `sancus_buffer_stripn`.
pub data Op : Type 0 where
  add : Bool → Bytes → Op
  print : Bool → Printer → Bytes → Op
  keep : ℕ → Op
  cut : ℕ → Op

abbrev pub lifted : Outcome (ℤ × Buffer) → Outcome (ℤ × Option Buffer)
lifted o = o >>= λ (rc, b). ok (rc, some b)

abbrev pub perform : Op → Option Buffer → Outcome (ℤ × Option Buffer)
perform (add trunc s) ob = append ob trunc (some s) (pos (length s))
perform (print trunc printer text) ob = appendv ob trunc printer
perform (keep n) none = fault
perform (keep n) (some b) = lifted (truncate b n)
perform (cut n) none = fault
perform (cut n) (some b) = lifted (stripn b n)

-- The results, and the buffer at the end.
unfoldable pub perform_all : List Op → Option Buffer → Outcome (List ℤ × Option Buffer)
perform_all [] ob = ok ([], ob)
perform_all (o ∷ os) ob = do
  (rc, ob') ← perform o ob
  (rcs, ob'') ← perform_all os ob'
  ok (rc ∷ rcs, ob'')

-- What the operations do to a text of at most `c` bytes, and what they return.
abbrev pub effect : ℕ → Bytes → Op → Bytes
effect c xs (add trunc s) = xs ++ accepted (c - length xs) trunc s
effect c xs (print trunc printer text) = xs ++ printed (c - length xs) trunc text
effect c xs (keep n) = take (min n (length xs)) xs
effect c xs (cut n) = take (length xs - n) xs

abbrev pub result : ℕ → Bytes → Op → ℤ
result c xs (add trunc s) = reply (c - length xs) trunc s
result c xs (print trunc printer text) = printed_reply (c - length xs) trunc text
result c xs (keep n) = pos (min n (length xs))
result c xs (cut n) = pos (length xs - n)

abbrev pub effects : ℕ → Bytes → List Op → Bytes
effects c xs [] = xs
effects c xs (o ∷ os) = effects c (effect c xs o) os

abbrev pub results : ℕ → Bytes → List Op → List ℤ
results c xs [] = []
results c xs (o ∷ os) = result c xs o ∷ results c (effect c xs o) os

-- What may be done: `vsnprintf` renders the text, and a text that is cut leaves room for its NUL.
abbrev pub Allowed : ℕ → Bytes → Op → Type 0
Allowed c xs (add trunc s) = Unit
Allowed c xs (print trunc printer text) = Prints printer text
Allowed c xs (keep n) = min n (length xs) < c
Allowed c xs (cut n) = 0 < n + (c - length xs)

abbrev pub AllAllowed : ℕ → Bytes → List Op → Type 0
AllAllowed c xs [] = Unit
AllAllowed c xs (o ∷ os) = Allowed c xs o × AllAllowed c (effect c xs o) os

-- A buffer of `c` bytes that stores `xs` from its start on.
pub record Stores (c : ℕ) (xs : Bytes) (b : Buffer) : Type 0 where
  pub valid : IsValid b
  pub data_eq : contents b ≡ xs
  pub base_eq : b.base ≡ 0
  pub size_eq : b.size ≡ c

module _ {c : ℕ} {xs : Bytes} {b : Buffer} (s : Stores c xs b) where
  len-Stores : b.len ≡ length xs
  len-Stores = omega (arith, length-contents s.valid, ap length s.data_eq)

  room-Stores : room b ≡ c - length xs
  room-Stores = omega (arith, len-Stores, s.base_eq, s.size_eq)

  Extends-Stores : (ys : Bytes) {b' : Buffer} → Extends b ys b' → Stores c (xs ++ ys) b'
  Extends-Stores ys x = record {
    valid = x.valid;
    data_eq = x.data_eq ∙ ap (λ (zs : Bytes). zs ++ ys) s.data_eq;
    base_eq = x.base_eq ∙ s.base_eq;
    size_eq = x.size_eq ∙ s.size_eq;
  }

  Cuts-Stores : (n : ℕ) {b' : Buffer} → Cuts b n b' → Stores c (take n xs) b'
  Cuts-Stores n x = record {
    valid = x.valid;
    data_eq = x.data_eq ∙ ap (λ (zs : Bytes). take n zs) s.data_eq;
    base_eq = omega (arith, x.base_le, s.base_eq);
    size_eq = x.size_eq ∙ s.size_eq;
  }

  -- A cut, with its length told by the text.
  cut_Stores :
      (o : Outcome (ℤ × Buffer)) (k j : ℕ)
      → k ≡ j
      → (b' : Buffer) × (o ≡ ok (pos k, b')) × Cuts b k b'
      → (b' : Buffer) × (lifted o ≡ ok (pos j, some b')) × Stores c (take j xs) b'
  cut_Stores o k j same (b', e, x) =
      (b', rw e (ap (λ (i : ℕ). ok (pos i, some b')) same), rw (sym same) (Cuts-Stores k x))

-- An operation on a buffer that stores a text.
abbrev pub Performs : ℕ → Bytes → Op → Buffer → Type 0
Performs c xs o b =
    (b' : Buffer) × (perform o (some b) ≡ ok (result c xs o, some b')) × Stores c (effect c xs o) b'

perform_lem :
    {c : ℕ} {xs : Bytes} {b : Buffer} (o : Op) → Stores c xs b → Allowed c xs o → Performs c xs o b
perform_lem {c} {xs} {b} (add trunc t) s a =
    let (b', e, x) = rw (room-Stores s) at (append_lem trunc t s.valid) in
    (b', e, Extends-Stores s (accepted (c - length xs) trunc t) x)
perform_lem {c} {xs} {b} (print trunc printer text) s a =
    let (b', e, x) = rw (room-Stores s) at (appendv_lem trunc printer text s.valid a) in
    (b', e, Extends-Stores s (printed (c - length xs) trunc text) x)
perform_lem {c} {xs} {b} (keep n) s a =
    cut_Stores s (truncate b n) (min n b.len) (min n (length xs)) (omega (arith, len-Stores s))
      (truncate_lem n s.valid (omega (arith, len-Stores s, room-Stores s)))
perform_lem {c} {xs} {b} (cut n) s a =
    cut_Stores s (stripn b n) (b.len - n) (length xs - n) (omega (arith, len-Stores s))
      (stripn_lem n s.valid (omega (arith, room-Stores s)))

-- Any operations on a buffer that stores a text.
perform_all-Stores :
    (os : List Op) {c : ℕ} {xs : Bytes} {b : Buffer}
    → Stores c xs b
    → AllAllowed c xs os
    → (b' : Buffer) × (perform_all os (some b) ≡ ok (results c xs os, some b'))
      × Stores c (effects c xs os) b'
unfolding perform_all
perform_all-Stores [] s a = (_, refl, s)
perform_all-Stores (o ∷ os) s (a, rest) =
    let (b', e, s') = perform_lem o s a in
    let (b'', e', s'') = perform_all-Stores os s' rest in (b'', rw (e, e'), s'')

-- A buffer that `sancus_buffer_init` made of an array, neither empty nor too large, goes through any
-- appends, formatted or not, truncations and cuts as a text of at most that capacity does: their
-- results are those of the text, no access leaves the array, the buffer stays valid, and it holds
-- the text at the end, where `vsnprintf` renders what it is asked to and a cut leaves room for a NUL.
pub perform_all_lem :
    (b : Buffer) (m : Bytes) (os : List Op)
    → 0 < length m
    → length m < 2 ^ 32
    → AllAllowed (length m) [] os
    → (b' : Buffer) × (perform_all os (init (some b) (some m) (length m)).1
        ≡ ok (results (length m) [] os, some b'))
      × IsValid b'
      × (contents b' ≡ effects (length m) [] os)
perform_all_lem b m os h k a =
    let (start, e, v, none_yet, first_byte, whole) = init-IsValid b m h k in
    let (b', e', s) =
      perform_all-Stores os
        (record { valid = v; data_eq = none_yet; base_eq = first_byte; size_eq = whole }) a in
    (b', ap (λ (r : ℤ × Option Buffer). perform_all os r.1) e ∙ e', s.valid, s.data_eq)
