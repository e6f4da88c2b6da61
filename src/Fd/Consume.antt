-- ===== src/Fd/Consume.antt =====
-- What `sancus_writev` drops from the entries after a write.
use sancus_core.Base.{
  ℕ, zero, suc, ◌+◌, ◌-◌, ◌≤◌, ◌<◌, ◌≡◌, ◌∙◌, refl, sym, ap, List, [], ◌∷◌, ◌++◌, le→leb,
  lt→leb-false, take, drop, length, length-take, length-drop, drop-drop, drop-take, drop-append_le,
  arith,
}
use sancus_core.Base.Memory.{Bytes}
use sancus_core.Fd.{Iovec, advance, consume, offered}

-- The bytes of several entries.
abbrev pub sizes : List Iovec → ℕ
sizes [] = 0
sizes (v ∷ vs) = v.len + sizes vs

pub consume-past :
    (v : Iovec) (vs : List Iovec) (n wc : ℕ)
    → 0 < n
    → v.len ≤ n
    → consume (v ∷ vs) n wc ≡ consume vs (n - v.len) wc
unfolding consume
consume-past v vs zero wc p h = absurd (omega arith)
consume-past v vs (suc n) wc p h = rw (le→leb v.len (suc n) h)

consume-inside :
    (v : Iovec) (vs : List Iovec) (n wc : ℕ)
    → 0 < n
    → n < v.len
    → consume (v ∷ vs) n wc ≡ advance v n wc ∷ vs
unfolding consume
consume-inside v vs zero wc p h = absurd (omega arith)
consume-inside v vs (suc n) wc p h = rw (lt→leb-false v.len (suc n) h)

pub consume-zero : (vs : List Iovec) (wc : ℕ) → consume vs 0 wc ≡ vs
unfolding consume
consume-zero [] wc = refl
consume-zero (v ∷ vs) wc = refl

-- A write that stops inside the first entry leaves the bytes that were not written.
pub consume_first :
    (v : Iovec) (vs : List Iovec) (n : ℕ)
    → v.offset + v.len ≤ length v.memory
    → n < v.len
    → offered (consume (v ∷ vs) n n) ≡ drop n (offered (v ∷ vs))
unfolding consume
consume_first v vs zero h l = refl
consume_first v vs (suc n) h l = rw (lt→leb-false v.len (suc n) l) (
    ap (λ (t : Bytes). t ++ offered vs)
      (ap (take (v.len - suc n)) (sym (drop-drop (suc n) v.offset (v.offset + suc n) v.memory refl))
        ∙ sym (drop-take (suc n) v.len (v.len - suc n) (drop v.offset v.memory) refl))
    ∙ sym (
        drop-append_le (suc n) (take v.len (drop v.offset v.memory)) (offered vs) (
          omega
            (arith, length-take v.len (drop v.offset v.memory), length-drop v.offset v.memory))))

offered-past :
    (v : Iovec) (vs : List Iovec) (n wc : ℕ)
    → v.len ≤ n
    → offered (consume (v ∷ vs) n wc) ≡ offered (consume vs (n - v.len) wc)
offered-past v vs zero wc h = rw (consume-zero (v ∷ vs) wc, none, consume-zero vs wc)
  where
    none : v.len ≡ 0
    none = omega arith
offered-past v vs (suc n) wc h = ap offered (consume-past v vs (suc n) wc (omega arith) h)

-- A write that stops behind some entries leaves the bytes of the others.
pub consume_whole :
    (us vs : List Iovec) (wc : ℕ) → offered (consume (us ++ vs) (sizes us) wc) ≡ offered vs
consume_whole [] vs wc = ap offered (consume-zero vs wc)
consume_whole (u ∷ us) vs wc =
    offered-past u (us ++ vs) (u.len + sizes us) wc (omega arith)
    ∙ ap (λ (n : ℕ). offered (consume (us ++ vs) n wc)) rest
    ∙ consume_whole us vs wc
  where
    rest : u.len + sizes us - u.len ≡ sizes us
    rest = omega arith

-- A write that stops inside the second entry advances that entry by the bytes of both.
pub consume_crossing :
    (u v : Iovec) (vs : List Iovec) (k : ℕ)
    → 0 < k
    → k < v.len
    → consume (u ∷ v ∷ vs) (u.len + k) (u.len + k)
      ≡ record { memory = v.memory; offset = v.offset + (u.len + k); len = v.len - k } ∷ vs
consume_crossing u v vs k h l =
    consume-past u (v ∷ vs) (u.len + k) (u.len + k) (omega arith) (omega arith)
    ∙ ap (λ (n : ℕ). consume (v ∷ vs) n (u.len + k)) rest
    ∙ consume-inside v vs k (u.len + k) h l
  where
    rest : u.len + k - u.len ≡ k
    rest = omega arith
