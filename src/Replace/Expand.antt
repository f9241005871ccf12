-- ===== src/Replace/Expand.antt =====
-- write_replacement for a REPLACEMENT with references.
use mathlib.Core.List.{map}
use rrep.Base.{
  ℕ, ◌≡◌, refl, ap, ◌∙◌, Bool, true, false, ◌||◌, Option, none, some, List, [], ◌∷◌, ◌++◌, length,
  Bool-cases, inl, inr, append_assoc, append-nil,
}
use rrep.Options.{Options}
use rrep.Bufferio.Memory.{Block, window, window-store_prefix}
use rrep.Pattern.{Span}
use rrep.Replacement.{
  Replace, parsed, count, count_subs, split_parts, part_texts, sub_indices, text_block,
  parse_replace,
}
use rrep.Replacement.Lexing.{lex}
use mathlib.Core.Path.{subst}
use rrep.Replacement.Parse.{parse_replace-Stored}
use rrep.Replacement.Fit.{NoEscape, NoEscape-hidden, lens_exact}
use rrep.Replacement.Substitute.{substitute, expand, expand-split_parts}
use rrep.Replace.{
  Sink, Wrote, written, write_string, put, match_at, group_text, put_groups, put_parts,
  write_replacement,
}
use rrep.Replace.Write.{InSize, Emits, nothing-Emits, write_string-Emits}

or_false : (a b : Bool) → (a || b) ≡ false → (a ≡ false) × (b ≡ false)
or_false true b h = absurd cc
or_false false b h = (refl, h)

module _ (alloc : ℕ → Bool) (garbage : Block) where
  -- What each reference stands for.
  abbrev pub groups : List ℕ → ℕ → (ℕ → Option Span) → ℕ → List ℕ
  groups line start match i = group_text alloc line start (match i)

  put-Emits :
      (sink : Sink) (a b : List ℕ) (w : Wrote)
      → InSize sink
      → Emits alloc sink a w
      → Emits alloc sink (a ++ b) (put alloc w b)
  unfolding put
  put-Emits sink a b (s, f) v h = record {
    appended = λ z.
        let (x, y) = or_false f (write_string alloc s b).1 z in
        e.appended y ∙ ap (λ t. t ++ b) (h.appended x) ∙ append_assoc (written sink) a b;
    refused = λ z. elim (Bool-cases f) [ inl t ↦ h.refused t | inr t ↦ e.refused (rw t at z) ];
    in_size = λ v. e.in_size (h.in_size v);
  }
    where
      e : Emits alloc s b (write_string alloc s b)
      e = write_string-Emits alloc s b (h.in_size v)

  -- The blocks of the parts hold their texts.
  text_window : (text : List ℕ) → window (text_block garbage text) 0 (length text) ≡ text
  text_window text = window-store_prefix garbage 0 text (0 ∷ [])

  abbrev blocks : List (List ℕ) → List Block
  blocks texts = map (text_block garbage) texts

  reference-Emits :
      (line : List ℕ) (start : ℕ) (sink : Sink) (a : List ℕ) (w : Wrote) (m : Option Span)
      → InSize sink
      → Emits alloc sink a w
      → Emits alloc sink
          (a ++ group_text alloc line start m)
          (elim m [ none ↦ w | some m ↦ put alloc w (group_text alloc line start (some m)) ])
  reference-Emits line start sink a w none v h = rw (append-nil a) h
  reference-Emits line start sink a w (some m) v h = put-Emits sink a _ w v h

  abbrev after_reference : List ℕ → ℕ → Option Span → Wrote → Wrote
  after_reference line start m w = elim m [
    | none ↦ w
    | some m ↦ put alloc w (group_text alloc line start (some m))
  ]

  -- A reference is followed by a part.
  groups_step :
      (line : List ℕ) (start : ℕ) (match : ℕ → Option Span) (rest : List (List ℕ × ℕ))
      (last : List ℕ) (i : ℕ) (w : Wrote)
      → put_groups alloc line start match w
          (i ∷ sub_indices (rest, last))
          (blocks (part_texts (rest, last)))
          (map length (part_texts (rest, last)))
        ≡ put_parts alloc line start match
            (after_reference line start (match i) w)
            (sub_indices (rest, last))
            (blocks (part_texts (rest, last)))
            (map length (part_texts (rest, last)))
  unfolding put_groups put_parts
  groups_step line start match [] last i w = refl
  groups_step line start match ((text, j) ∷ rest) last i w = refl

  -- The first part is followed by a reference.
  parts_step :
      (line : List ℕ) (start : ℕ) (match : ℕ → Option Span) (rest : List (List ℕ × ℕ))
      (text last : List ℕ) (i : ℕ) (w : Wrote)
      → put_parts alloc line start match w
          (sub_indices ((text, i) ∷ rest, last))
          (blocks (part_texts ((text, i) ∷ rest, last)))
          (map length (part_texts ((text, i) ∷ rest, last)))
        ≡ put_parts alloc line start match
            (after_reference line start (match i) (put alloc w text))
            (sub_indices (rest, last))
            (blocks (part_texts (rest, last)))
            (map length (part_texts (rest, last)))
  unfolding put_parts
  parts_step line start match rest text last i w =
      ap
        (λ t.
          put_groups alloc line start match (put alloc w t) (i ∷ sub_indices (rest, last))
            (blocks (part_texts (rest, last))) (map length (part_texts (rest, last))))
        (text_window text)
      ∙ groups_step line start match rest last i (put alloc w text)

  put_parts-Emits :
      (line : List ℕ) (start : ℕ) (match : ℕ → Option Span) (rest : List (List ℕ × ℕ))
      (last : List ℕ) (sink : Sink) (a : List ℕ) (w : Wrote)
      → InSize sink
      → Emits alloc sink a w
      → Emits alloc sink (a ++ expand (rest, last) (groups line start match)) (
          put_parts alloc line start match w
            (sub_indices (rest, last))
            (blocks (part_texts (rest, last)))
            (map length (part_texts (rest, last))))
  unfolding put_parts put_groups
  put_parts-Emits line start match [] last sink a w v h =
      rw (text_window last) (put-Emits sink a last w v h)
  put_parts-Emits line start match ((text, i) ∷ rest) last sink a w v h =
      rw (parts_step line start match rest text last i w) (
        rw
          (
            ← append_assoc a text
                (groups line start match i ++ expand (rest, last) (groups line start match)),
            ← append_assoc (a ++ text) (groups line start match i)
                (expand (rest, last) (groups line start match)),
          )
          (put_parts-Emits line start match rest last sink
            ((a ++ text) ++ groups line start match i)
            (after_reference line start (match i) (put alloc w text)) v
            (reference-Emits line start sink (a ++ text) (put alloc w text) (match i) v
              (put-Emits sink a text w v h))))

  stored-Emits :
      (o : Options) (s line : List ℕ) (start : ℕ) (m : Span) (subs : List (Option Span))
      (sink : Sink) (r : Replace)
      → o.fixed ≡ false
      → InSize sink
      → r.sub ≡ sub_indices (split_parts s [])
      → r.part ≡ blocks (part_texts (split_parts s []))
      → r.part_len ≡ map length (part_texts (split_parts s []))
      → Emits alloc sink
          (expand (split_parts s []) (groups line start (match_at alloc m subs)))
          (write_replacement alloc o sink line start m subs r)
  unfolding write_replacement
  stored-Emits o s line start m subs sink r f v refs part lens =
      rw (f, refs, part, lens)
        (put_parts-Emits line start (match_at alloc m subs) (split_parts s []).0
          (split_parts s []).1 sink [] (sink, false) v (nothing-Emits alloc sink))

  -- The REPLACEMENT with each reference replaced by what it stands for at a match.
  abbrev pub substituted : List ℕ → List ℕ → ℕ → Span → List (Option Span) → List ℕ
  substituted s line start m subs = substitute (lex s) (groups line start (match_at alloc m subs))

  -- What parse_replace stores makes write_replacement write that, at every match.
  pub parsed-Emits :
      (o : Options) (s : List ℕ) (n : ℕ)
      → o.fixed ≡ false
      → count_subs s 0 ≡ count n
      → NoEscape (lex s)
      → ((k : ℕ) → alloc k ≡ true)
      → (r : Replace) × (parse_replace alloc garbage o s ≡ parsed r)
        × ((line : List ℕ) (start : ℕ) (m : Span) (subs : List (Option Span)) (sink : Sink)
            → InSize sink
            → Emits alloc sink
                (substituted s line start m subs)
                (write_replacement alloc o sink line start m subs r))
  parsed-Emits o s n f h e grants =
      let (r, parses, st) =
        parse_replace-Stored alloc garbage o s grants f n h (NoEscape-hidden (lex s) e) in
      (
        r,
        parses,
        λ line start m subs sink v.
            subst
              (λ text. Emits alloc sink text (write_replacement alloc o sink line start m subs r))
              (expand-split_parts (lex s) [] 0 n (groups line start (match_at alloc m subs)) h)
              (stored-Emits o s line start m subs sink r f v st.references st.part
                (st.lengths ∙ lens_exact (lex s) [] 0 e refl)),
      )

  -- Where malloc and realloc grant every size and OPT_FIXED is not set, for a REPLACEMENT whose
  -- only escapes are references and an output inside its memory: parse_replace accepts it, and with
  -- what it stores write_replacement appends, for each match, the REPLACEMENT with each reference
  -- replaced by what it stands for, and leaves the output inside its memory; it fails only if
  -- realloc refuses.
  pub write_replacement-substitute :
      (o : Options) (s : List ℕ) (n : ℕ) (line : List ℕ) (start : ℕ) (m : Span)
      (subs : List (Option Span)) (sink : Sink)
      → o.fixed ≡ false
      → count_subs s 0 ≡ count n
      → NoEscape (lex s)
      → ((k : ℕ) → alloc k ≡ true)
      → InSize sink
      → (r : Replace) × (parse_replace alloc garbage o s ≡ parsed r)
        × Emits alloc sink
            (substitute (lex s) (groups line start (match_at alloc m subs)))
            (write_replacement alloc o sink line start m subs r)
  write_replacement-substitute o s n line start m subs sink f h e grants v =
      let (r, parses, emits) = parsed-Emits o s n f h e grants in
      (r, parses, emits line start m subs sink v)
