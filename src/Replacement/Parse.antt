-- ===== src/Replacement/Parse.antt =====
-- parse_replace as a whole, where every allocation succeeds: which strings it rejects, which ones
-- make it write behind its arrays, and what it stores for all others.
use mathlib.Core.List.{map}
use rrep.Base.{
  ℕ, zero, suc, ◌+◌, ◌*◌, ◌≡◌, ◌≤◌, refl, ◌∙◌, Bool, true, false, List, [], ◌∷◌, arith, length,
  length-map,
}
use rrep.Options.{Options}
use rrep.Bufferio.Memory.{Block}
use rrep.Replacement.{
  count, count_subs, part_lens, split_parts, part_texts, sub_indices, Replace, parsed, enough,
  store_parts, parse_replace, text_block, fill_parts,
}
use rrep.Replacement.Lexing.{lex}
use rrep.Replacement.Swipes.{hidden, references_counted, parts_counted}
use rrep.Replacement.Fit.{Fits, texts_fit}

module _ (alloc : ℕ → Bool) (garbage : Block) (o : Options) (s : List ℕ)
    (memory : (n : ℕ) → alloc n ≡ true) (regular : o.fixed ≡ false) where
  store_enough :
      (room : ℕ) (lens : List ℕ) → length lens ≤ room → store_parts alloc garbage room lens ≡ enough
  unfolding store_parts
  store_enough room [] h = refl
  store_enough zero (n ∷ ns) h = absurd (omega arith)
  store_enough (suc room) (n ∷ ns) h =
      rw (memory (n + 1), store_parts) (store_enough room ns (omega arith))

  parse_counted :
      (n : ℕ)
      → count_subs s 0 ≡ count n
      → parse_replace alloc garbage o s ≡ fill_parts alloc garbage s n
  unfolding parse_replace
  parse_counted n h = rw (memory (length s + 1), regular, h, memory ((n + 1) * 8), memory (n * 4))

  -- What is stored for a string in which no separator is hidden.
  pub record Stored (n : ℕ) (r : Replace) : Type 0 where
    pub string : r.string ≡ s
    pub nsub : r.nsub ≡ n
    pub subs : length r.sub ≡ n
    pub lens : length r.part_len ≡ n + 1
    pub part : r.part ≡ map (text_block garbage) (part_texts (split_parts s []))
    pub references : r.sub ≡ sub_indices (split_parts s [])
    pub lengths : r.part_len ≡ part_lens s 0
    pub fits : Fits (part_texts (split_parts s [])) r.part_len

  -- Where malloc grants every size and OPT_FIXED is not set, a REPLACEMENT without an unknown
  -- escape in which no &, and no backslash before a digit 1 to 9, stands behind a backslash is
  -- accepted: the three arrays hold what the first swipe counts, and each part has room for its
  -- text.
  pub parse_replace-Stored :
      (n : ℕ)
      → count_subs s 0 ≡ count n
      → hidden (lex s) ≡ 0
      → (r : Replace) × (parse_replace alloc garbage o s ≡ parsed r) × Stored n r
  parse_replace-Stored n h none_hidden = (
    stored,
    parse_counted n h
        ∙ rw (store_enough (n + 1) (part_lens s 0) (omega (arith, parts)), fill_parts),
    record {
      string = refl;
      nsub = refl;
      subs = omega (
        arith,
        references_counted (lex s) [] 0 n h,
        length-map (split_parts s []).0 (λ (text, i). i),
      );
      lens = omega (arith, parts);
      part = refl;
      references = refl;
      lengths = refl;
      fits = texts_fit (lex s) [] 0 0 n h none_hidden (omega arith);
    },
  )
    where
      parts : length (part_lens s 0) + 0 ≡ n + 1 + hidden (lex s)
      parts = parts_counted (lex s) 0 0 n h

      stored : Replace
      stored = record {
        string = s;
        part = map (text_block garbage) (part_texts (split_parts s []));
        part_len = part_lens s 0;
        sub = sub_indices (split_parts s []);
        nsub = n;
      }
