-- ===== src/Buffer/Chunk.antt =====
-- What `vsnprintf` writes behind the data of a buffer, and what is kept of it.
use sancus_core.Base.{
  ℕ, ◌+◌, ◌-◌, ◌≤◌, ◌<◌, ◌≡◌, refl, sym, ap, ◌∙◌, take-all, take-append_le, take-take,
  length-append, true, false, append-nil, Bool, some, [], ◌∷◌, ◌++◌, arith, length, take,
  length-take,
}
use sancus_core.Base.Int.{pos}
use sancus_core.Base.Memory.{Bytes, slice, store}
use sancus_core.Base.Memory.Laws.{
  stored, store-ok, length-stored, slice-stored_part, slice-stored_before,
}
use sancus_core.Base.Outcome.{ok}
use sancus_core.Base.Word.{add64, enobufs}
use sancus_core.Buffer.{Buffer, grow, print_in, Printer, settle}
use sancus_core.Buffer.Inv.{IsValid, contents, room, Extends, no_wrap}

-- The library's promise of `vsnprintf` for a format whose whole output is `text`: it returns the
-- length of that, and writes as much of it as fits, and a NUL.
abbrev pub Prints : Printer → Bytes → Type 0
Prints print text = (l : ℕ) → 0 < l → print l ≡ (pos (length text), take (l - 1) text ++ (0 ∷ []))

module _ {b : Buffer} (v : IsValid b) where
  grow_pos :
      (m : Bytes) (n : ℕ)
      → n ≤ room b
      → grow (record b { buf = m }) (pos n) ≡ record b { buf = m; len = b.len + n }
  unfolding grow
  grow_pos m n h = ground (arith, v.small, v.extent)

  module _ (text : Bytes) (h : 0 < room b) where
    -- What `vsnprintf` leaves in the array.
    abbrev chunk : Bytes
    chunk = take (room b - 1) text ++ (0 ∷ [])

    length-chunk : length chunk ≡ length (take (room b - 1) text) + 1
    length-chunk = length-append (take (room b - 1) text) (0 ∷ [])

    chunk_fits : b.base + b.len + length chunk ≤ length b.buf
    chunk_fits = omega (arith, length-chunk, length-take (room b - 1) text, v.extent, v.backed)

    abbrev after : Bytes
    after = stored b.buf (b.base + b.len) chunk

    -- The struct that has `k` bytes of the chunk, whatever stands behind them.
    chunk-Extends :
        (m : Bytes) (k : ℕ)
        → k ≤ length text
        → k ≤ room b - 1
        → length m ≡ length b.buf
        → slice b.base (b.len + k) m ≡ slice b.base (b.len + k) after
        → Extends b (take k text) (record b { buf = m; len = b.len + k })
    chunk-Extends m k g g' e same = record {
      valid = record {
        extent = omega (arith, v.extent);
        backed = omega (arith, v.backed);
        small = v.small;
        positive = v.positive;
      };
      data_eq =
          same
          ∙ slice-stored_part b.buf (b.base + b.len) chunk b.base b.len k (b.len + k) refl refl
              (omega (arith, length-chunk, length-take (room b - 1) text)) chunk_fits
          ∙ ap (λ (t : Bytes). contents b ++ t)
              (take-append_le k (take (room b - 1) text) (0 ∷ [])
                  (omega (arith, length-take (room b - 1) text))
                ∙ take-take k (room b - 1) text g');
      base_eq = refl;
      size_eq = refl;
    }

    module _ (print : Printer) (p : Prints print text) where
      print_store : store b.buf (add64 b.base b.len) (print (room b)).1 ≡ ok after
      print_store =
          rw (p (room b) h, (no_wrap v).1, store-ok b.buf (b.base + b.len) chunk chunk_fits)

      pub print_fits :
          (truncate : Bool)
          → length text < room b
          → (b' : Buffer) × (print_in b truncate print (room b) ≡ ok (pos (length text), some b'))
            × Extends b text b'
      unfolding print_in settle
      print_fits truncate fits = (
        record b { buf = after; len = b.len + length text },
        rw (print_store, p (room b) h) (ground (arith, grow_pos after (length text))),
        rw (take-all (length text) text (omega arith)) at (
            chunk-Extends after (length text) (omega arith) (omega arith)
              (length-stored b.buf (b.base + b.len) chunk chunk_fits) refl),
      )

      -- The second NUL, which truncation writes where `vsnprintf` wrote one already.
      abbrev twice_ended : Bytes
      twice_ended = stored after (b.base + b.len + (room b - 1)) (0 ∷ [])

      last_in : b.base + b.len + (room b - 1) + 1 ≤ length after
      last_in =
          omega (arith, length-stored b.buf (b.base + b.len) chunk chunk_fits, v.extent, v.backed)

      last_store : store after (add64 (add64 b.base b.len) (room b - 1)) (0 ∷ []) ≡ ok twice_ended
      last_store = rw (no_wrap v).1 (
          ap (λ i. store after i (0 ∷ [])) (omega (arith, v.extent, v.small))
          ∙ store-ok after (b.base + b.len + (room b - 1)) (0 ∷ []) last_in)

      pub print_cut :
          room b ≤ length text
          → (b' : Buffer) × (print_in b true print (room b) ≡ ok (pos (room b - 1), some b'))
            × Extends b (take (room b - 1) text) b'
      unfolding print_in settle
      print_cut over = (
        record b { buf = twice_ended; len = b.len + (room b - 1) },
        rw (print_store, p (room b) h)
            (ground (arith, grow_pos twice_ended (room b - 1), last_store)),
        chunk-Extends twice_ended (room b - 1) (omega arith) (omega arith)
            (length-stored after (b.base + b.len + (room b - 1)) (0 ∷ []) last_in
              ∙ length-stored b.buf (b.base + b.len) chunk chunk_fits)
            (slice-stored_before after (b.base + b.len + (room b - 1)) (0 ∷ []) b.base
              (b.len + (room b - 1)) (omega arith) last_in),
      )

      pub print_refused :
          room b ≤ length text
          → (b' : Buffer) × (print_in b false print (room b) ≡ ok (enobufs, some b'))
            × Extends b [] b'
      unfolding print_in settle grow
      print_refused over = (
        record b { buf = after },
        rw (print_store, p (room b) h) (ground arith),
        record {
          valid = record {
            extent = v.extent;
            backed = omega (arith, length-stored b.buf (b.base + b.len) chunk chunk_fits, v.backed);
            small = v.small;
            positive = v.positive;
          };
          data_eq =
              slice-stored_before b.buf (b.base + b.len) chunk b.base b.len (omega arith) chunk_fits
              ∙ sym (append-nil (contents b));
          base_eq = refl;
          size_eq = refl;
        },
      )
