-- ===== src/Logger/Default/Lines.antt =====
-- The line that the default back end writes.
use sancus_core.Base.{
  ℕ, suc, ◌+◌, ◌≤◌, false, List, [], ◌∷◌, ◌++◌, ◌==◌, ◌≡◌, refl, sym, ap, ◌∙◌, append-nil,
  append_assoc, arith, length, length-append, take, drop, length-take, length-drop, take-all,
  if◌then◌else◌,
}
use sancus_core.Base.Memory.{Bytes}
use sancus_core.Fd.{Iovec, offered}
use sancus_core.Fd.Consume.{sizes}
use sancus_core.Logger.{colon}
use sancus_core.Logger.Default.{log_iov, prefix_part, msg_part, extra_part, entries}

-- The texts that are not empty, with ": " between them.
abbrev pub joined : List Bytes → Bytes
joined [] = []
joined ([] ∷ texts) = joined texts
joined ((c ∷ s) ∷ texts) =
    (c ∷ s) ++ (if length (joined texts) == 0 then [] else colon ++ joined texts)

-- A line: the prelude, the texts and a line feed.
abbrev pub line : Bytes → Bytes → Bytes → Bytes → Bytes
line head prefix msg extra = head ++ (joined (prefix ∷ msg ∷ extra ∷ []) ++ (10 ∷ []))

offered-append : (us vs : List Iovec) → offered (us ++ vs) ≡ offered us ++ offered vs
offered-append [] vs = refl
offered-append (u ∷ us) vs =
    ap (λ (t : Bytes). take u.len (drop u.offset u.memory) ++ t) (offered-append us vs)
    ∙ sym (append_assoc (take u.len (drop u.offset u.memory)) (offered us) (offered vs))

filled : (n : ℕ) → (suc n == 0) ≡ false
filled n = ground arith

take_self : (s : Bytes) → take (length s) s ≡ s
take_self s = take-all (length s) s (omega arith)

ruleset lines = (filled, take_self, append_assoc, append-nil)

-- What the entries offer is the line.
pub offered-entries :
    (v : Iovec) (prefix msg extra : Bytes)
    → offered (entries v prefix msg extra)
      ≡ line (take v.len (drop v.offset v.memory)) prefix msg extra
unfolding entries
offered-entries v [] [] [] = refl
offered-entries v [] [] (d ∷ extra) = simp lines
offered-entries v [] (m ∷ msg) [] = simp lines
offered-entries v [] (m ∷ msg) (d ∷ extra) = simp lines
offered-entries v (p ∷ prefix) [] [] = simp lines
offered-entries v (p ∷ prefix) [] (d ∷ extra) = simp lines
offered-entries v (p ∷ prefix) (m ∷ msg) [] = simp lines
offered-entries v (p ∷ prefix) (m ∷ msg) (d ∷ extra) = simp lines

-- Seven entries at most, as `iov` has.
pub length-entries :
    (v : Iovec) (prefix msg extra : Bytes) → length (entries v prefix msg extra) ≤ 7
unfolding entries
length-entries v prefix msg extra = ground arith

-- The entries lie in the memory that they lead to.
abbrev pub InMemory : List Iovec → Type 0
InMemory [] = Unit
InMemory (v ∷ vs) = (v.offset + v.len ≤ length v.memory) × InMemory vs

InMemory-append : (us vs : List Iovec) → InMemory us → InMemory vs → InMemory (us ++ vs)
InMemory-append [] vs h k = k
InMemory-append (u ∷ us) vs h k = (h.0, InMemory-append us vs h.1 k)

pub sizes-InMemory : (vs : List Iovec) → InMemory vs → sizes vs ≡ length (offered vs)
sizes-InMemory [] h = refl
sizes-InMemory (v ∷ vs) h = omega (
  arith,
  sizes-InMemory vs (h.1),
  length-append (take v.len (drop v.offset v.memory)) (offered vs),
  length-take v.len (drop v.offset v.memory),
  length-drop v.offset v.memory,
)

pub entries-InMemory :
    (v : Iovec) (prefix msg extra : Bytes)
    → v.offset + v.len ≤ length v.memory
    → InMemory (entries v prefix msg extra)
unfolding entries
entries-InMemory v prefix msg extra h = (
  h,
  InMemory-append (prefix_part prefix (length msg) (length extra)) _ (ground arith) (
      InMemory-append (msg_part msg (length extra)) _ (ground arith)
        (InMemory-append (extra_part extra) _ (ground arith) (omega arith))),
)

abbrev pub before : Iovec → Bytes → Bytes → Bytes → List Iovec
before v prefix msg extra =
    v
    ∷ (prefix_part prefix (length msg) (length extra)
        ++ (msg_part msg (length extra) ++ extra_part extra))

pub entries-before :
    (v : Iovec) (prefix msg extra : Bytes)
    → entries v prefix msg extra ≡ before v prefix msg extra ++ (log_iov (10 ∷ []) ∷ [])
unfolding entries
entries-before v prefix msg extra = simp append_assoc
