-- ===== src/Logger/Default/Writes.antt =====
-- What the default back end writes, as the kernel takes it.
use sancus_core.Base.{
  ℕ, zero, suc, ◌+◌, ◌-◌, ◌^◌, ◌≤◌, ◌<◌, true, false, Option, some, List, [], ◌∷◌, ◌++◌, ◌==◌, ◌≡◌,
  refl, sym, ap, ap₂, ◌∙◌, arith, length, take, take-all,
}
use sancus_core.Base.Int.{ℤ, pos, negsuc, neg_ℕ}
use sancus_core.Base.Memory.{Bytes}
use sancus_core.Base.Outcome.{ok}
use sancus_core.Buffer.{Buffer}
use sancus_core.Buffer.Inv.{IsValid, contents}
use sancus_core.Fd.{Answer, done, fail, eintr, Iovec, offered, consume, writev, writev_from}
use sancus_core.Fd.Consume.{sizes, consume-past}
use sancus_core.Time.{to_int}
use sancus_core.Time.Compare.{to_int-pos, to_int-negsuc}
use sancus_core.Logger.Default.{
  log_iov, log_iov2, prefix_part, msg_part, extra_part, entries, write_line, written,
}
use sancus_core.Logger.Default.Lines.{
  line, sizes-InMemory, entries-InMemory, offered-entries, before, entries-before,
}

sizes_pos : (vs : List Iovec) (v : Iovec) → v.len ≤ sizes (vs ++ (v ∷ []))
sizes_pos [] v = omega arith
sizes_pos (u ∷ vs) v = omega (arith, sizes_pos vs v)

-- A write of all bytes leaves no entry, where the last one is not empty.
consume_all :
    (vs : List Iovec) (v : Iovec) (wc : ℕ)
    → 0 < v.len
    → consume (vs ++ (v ∷ [])) (sizes (vs ++ (v ∷ []))) wc ≡ []
unfolding consume
consume_all [] v wc h =
    consume-past v [] (v.len + 0) wc (omega arith) (omega arith) ∙ ap (λ (t : List Iovec). t) refl
consume_all (u ∷ vs) v wc h =
    consume-past u (vs ++ (v ∷ [])) (u.len + sizes (vs ++ (v ∷ []))) wc
      (omega (arith, sizes_pos vs v)) (omega arith)
    ∙ ap (λ (n : ℕ). consume (vs ++ (v ∷ [])) n wc) rest
    ∙ consume_all vs v wc h
  where
    rest : u.len + sizes (vs ++ (v ∷ [])) - u.len ≡ sizes (vs ++ (v ∷ []))
    rest = omega arith

-- One write that takes all bytes, behind interruptions.
abbrev pub Interrupted : List Answer → Type 0
Interrupted [] = Unit
Interrupted (done n ∷ rest) = ⊥
Interrupted (fail e ∷ rest) = ((e == eintr) ≡ true) × Interrupted rest

finished :
    (rest : List Answer) (wt : ℕ) (out : Bytes) → writev_from rest [] wt out ≡ some (pos wt, out)
unfolding writev_from
finished [] wt out = refl
finished (a ∷ rest) wt out = refl

writev-all :
    (breaks : List Answer) (u : Iovec) (us : List Iovec) (n : ℕ) (rest : List Answer)
    → Interrupted breaks
    → consume (u ∷ us) n n ≡ []
    → length (offered (u ∷ us)) ≤ n
    → writev_from (breaks ++ (done n ∷ rest)) (u ∷ us) 0 [] ≡ some (pos n, offered (u ∷ us))
unfolding writev_from
writev-all [] u us n rest h k m =
    ap (λ (vs : List Iovec). writev_from rest vs (0 + n) (take n (offered (u ∷ us)))) k
    ∙ finished rest (0 + n) (take n (offered (u ∷ us)))
    ∙ ap₂ (λ (t : ℕ) (out : Bytes). some (pos t, out)) (omega arith)
        (take-all n (offered (u ∷ us)) m)
writev-all (done n' ∷ breaks) u us n rest h k m = absurd h
writev-all (fail e ∷ breaks) u us n rest h k m = rw (h.0) (writev-all breaks u us n rest (h.1) k m)

writev-failed :
    (breaks : List Answer) (u : Iovec) (us : List Iovec) (e : ℕ) (rest : List Answer)
    → Interrupted breaks
    → (e == eintr) ≡ false
    → writev_from (breaks ++ (fail e ∷ rest)) (u ∷ us) 0 [] ≡ some (neg_ℕ e, [])
unfolding writev_from
writev-failed [] u us e rest h k = rw k
writev-failed (done n' ∷ breaks) u us e rest h k = absurd h
writev-failed (fail i ∷ breaks) u us e rest h k =
    rw (h.0) (writev-failed breaks u us e rest (h.1) k)

-- What the entries of a line come to in the loop of `sancus_writev`.
abbrev tail : Bytes → Bytes → Bytes → List Iovec
tail prefix msg extra =
    prefix_part prefix (length msg) (length extra)
    ++ (msg_part msg (length extra) ++ (extra_part extra ++ (log_iov (10 ∷ []) ∷ [])))

to_int-neg_ℕ : (e : ℕ) → e < 2 ^ 31 → to_int (neg_ℕ e) ≡ neg_ℕ e
to_int-neg_ℕ zero h = to_int-pos 0 h
to_int-neg_ℕ (suc e) h = rw plain (to_int-negsuc e (omega arith))
  where
    plain : neg_ℕ (suc e) ≡ negsuc e
    plain = ground arith

module _ (b : Buffer) (prefix msg extra : Bytes) (breaks rest : List Answer) (v : IsValid b)
    (h : Interrupted breaks) where
  abbrev text : Bytes
  text = line (contents b) prefix msg extra

  sizes-entries : sizes (entries (log_iov2 b) prefix msg extra) ≡ length text
  sizes-entries =
      sizes-InMemory (entries (log_iov2 b) prefix msg extra)
        (entries-InMemory (log_iov2 b) prefix msg extra (omega (arith, v.extent, v.backed)))
      ∙ ap (λ (s : Bytes). length s) (offered-entries (log_iov2 b) prefix msg extra)

  none_left : (n : ℕ) → n ≡ length text → consume (entries (log_iov2 b) prefix msg extra) n n ≡ []
  none_left n e =
      ap (λ (k : ℕ). consume (entries (log_iov2 b) prefix msg extra) k n) (e ∙ sym sizes-entries)
      ∙ ap (λ (vs : List Iovec). consume vs (sizes vs) n)
          (entries-before (log_iov2 b) prefix msg extra)
      ∙ consume_all (before (log_iov2 b) prefix msg extra) (log_iov (10 ∷ [])) n (omega arith)

  written_all :
      writev_from
        (breaks ++ (done (length text) ∷ rest))
        (entries (log_iov2 b) prefix msg extra)
        0
        []
      ≡ some (pos (length text), text)
  written_all =
      unfold entries in
      (writev-all breaks (log_iov2 b) (tail prefix msg extra) (length text) rest h
        (none_left (length text) refl)
        (omega
          (arith, ap (λ (t : Bytes). length t) (offered-entries (log_iov2 b) prefix msg extra))))
      ∙ ap (λ (s : Bytes). some (pos (length text), s))
          (offered-entries (log_iov2 b) prefix msg extra)

  -- Where the kernel takes the line in one write, behind interruptions, the result is its length.
  pub write_line_lem :
      length text < 2 ^ 31
      → write_line (breaks ++ (done (length text) ∷ rest)) prefix msg extra (some b)
        ≡ ok (some (pos (length text), text))
  unfolding write_line writev
  write_line_lem k =
      ap
        (λ (vs : List Iovec).
          ok (written (writev_from (breaks ++ (done (length text) ∷ rest)) vs 0 [])))
        (take-all (length iov) iov (omega arith))
      ∙ ap (λ (o : Option (ℤ × Bytes)). ok (written o)) written_all
      ∙ ap (λ (n : ℤ). ok (some (n, text))) (to_int-pos (length text) k)
    where
      iov : List Iovec
      iov = entries (log_iov2 b) prefix msg extra

  failed_first :
      (e : ℕ)
      → (e == eintr) ≡ false
      → writev_from (breaks ++ (fail e ∷ rest)) (entries (log_iov2 b) prefix msg extra) 0 []
        ≡ some (neg_ℕ e, [])
  unfolding entries
  failed_first e k = writev-failed breaks (log_iov2 b) (tail prefix msg extra) e rest h k

  -- Where it fails first, the result is the negated error, and nothing was written.
  pub write_line_failed :
      (e : ℕ)
      → (e == eintr) ≡ false
      → e < 2 ^ 31
      → write_line (breaks ++ (fail e ∷ rest)) prefix msg extra (some b) ≡ ok (some (neg_ℕ e, []))
  unfolding write_line writev
  write_line_failed e k l =
      ap (λ (vs : List Iovec). ok (written (writev_from (breaks ++ (fail e ∷ rest)) vs 0 [])))
        (take-all (length iov) iov (omega arith))
      ∙ ap (λ (o : Option (ℤ × Bytes)). ok (written o)) (failed_first e k)
      ∙ ap (λ (n : ℤ). ok (some (n, []))) (to_int-neg_ℕ e l)
    where
      iov : List Iovec
      iov = entries (log_iov2 b) prefix msg extra
