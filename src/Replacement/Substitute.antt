-- ===== src/Replacement/Substitute.antt =====
-- What the parts and references of parse_replace stand for, and how long the parts are said to be.
use mathlib.Core.List.{map}
use rrep.Base.{
  ℕ, ◌+◌, ◌-◌, ◌≡◌, sym, ap, ◌∙◌, List, [], ◌∷◌, ◌++◌, arith, ◌==◌, if◌then◌else◌, length,
  length-append, append_assoc, append-nil,
}
use rrep.Bufferio.{newline}
use rrep.Replacement.{count, count_subs, part_lens, split_parts, part_texts, Pieces}
use rrep.Replacement.Lexing.{
  Lexes, end, whole, group, escape, char, dangling, bad, count_whole, count_group, count_escape,
  count_bad, count_dangling, count_char, lens_whole, lens_group, lens_char, split_whole,
  split_group, split_escape, split_char,
}
use rrep.Replacement.Swipes.{hidden, split_nil, lens_nil}
use rrep.Replacement.Fit.{lens_escape}

-- The text that a REPLACEMENT asks for, with what each reference stands for.
abbrev pub substitute : {s : List ℕ} → Lexes s → (ℕ → List ℕ) → List ℕ
substitute end g = []
substitute (whole a l) g = g 0 ++ substitute l g
substitute (group {d = d} a b e l) g = g (d - b'0') ++ substitute l g
substitute (escape {d = d} a b e k l) g = (if d == b'n' then newline else d) ∷ substitute l g
substitute (char {c} a b l) g = c ∷ substitute l g
substitute (dangling a b) g = []
substitute (bad a b e k) g = []

-- The parts with the references between them.
abbrev pub expand : Pieces → (ℕ → List ℕ) → List ℕ
expand ([], last) g = last
expand ((text, i) ∷ rest, last) g = text ++ (g i ++ expand (rest, last) g)

-- The third swipe splits an accepted REPLACEMENT into what it asks for.
pub expand-split_parts :
    {s : List ℕ} (l : Lexes s) (text : List ℕ) (n m : ℕ) (g : ℕ → List ℕ)
    → count_subs s n ≡ count m
    → expand (split_parts s text) g ≡ text ++ substitute l g
expand-split_parts end text n m g h = rw (split_nil text) (sym (append-nil text))
expand-split_parts (whole {c} {s} a l) text n m g h = rw (split_whole c s text a) (
    ap (λ t. text ++ (g 0 ++ t))
      (expand-split_parts l [] (n + 1) m g (sym (count_whole c s n a) ∙ h)))
expand-split_parts (group {c} {d} {s} a b e l) text n m g h = rw (split_group c d s text a b e) (
    ap (λ t. text ++ (g (d - b'0') ++ t))
      (expand-split_parts l [] (n + 1) m g (sym (count_group c d s n a b e) ∙ h)))
expand-split_parts (escape {c} {d} {s} a b e k l) text n m g h =
    rw (split_escape c d s text a b e) (
      expand-split_parts l _ n m g (sym (count_escape c d s n a b e k) ∙ h)
      ∙ append_assoc text ((if d == b'n' then newline else d) ∷ []) (substitute l g))
expand-split_parts (char {c} {s} a b l) text n m g h = rw (split_char c s text a b) (
    expand-split_parts l _ n m g (sym (count_char c s n a b) ∙ h)
    ∙ append_assoc text (c ∷ []) (substitute l g))
expand-split_parts (dangling {c} a b) text n m g h = cc (count_dangling c n a b)
expand-split_parts (bad {c} {d} {s} a b e k) text n m g h = cc (count_bad c d s n a b e k)

-- The escapes that are not references.
abbrev pub escapes : {s : List ℕ} → Lexes s → ℕ
escapes end = 0
escapes (whole a l) = escapes l
escapes (group a b g l) = escapes l
escapes (escape a b g k l) = 1 + escapes l
escapes (char a b l) = escapes l
escapes (dangling a b) = 0
escapes (bad a b g k) = 0

abbrev pub sum : List ℕ → ℕ
sum [] = 0
sum (n ∷ ns) = n + sum ns

lens_longer :
    {s : List ℕ} (l : Lexes s) (text : List ℕ) (len n m : ℕ)
    → count_subs s n ≡ count m
    → hidden l ≡ 0
    → sum (part_lens s len) + length text
      ≡ len + (sum (map length (part_texts (split_parts s text))) + escapes l)
lens_longer end text len n m h z = rw (split_nil text, lens_nil len) (omega arith)
lens_longer (whole {c} {s} a l) text len n m h z =
    rw (split_whole c s text a, lens_whole c s len a)
      (omega (arith, lens_longer l [] 0 (n + 1) m (sym (count_whole c s n a) ∙ h) z))
lens_longer (group {c} {d} {s} a b e l) text len n m h z =
    rw (split_group c d s text a b e, lens_group c d s len a b e)
      (omega (arith, lens_longer l [] 0 (n + 1) m (sym (count_group c d s n a b e) ∙ h) z))
lens_longer (escape {c} {d} {s} a b e k l) text len n m h z =
    rw (split_escape c d s text a b e, lens_escape c d s len a e (omega arith))
      (omega (
        arith,
        lens_longer l (text ++ ((if d == b'n' then newline else d) ∷ [])) (len + 1 + 1) n m
            (sym (count_escape c d s n a b e k) ∙ h) (omega arith),
        length-append text ((if d == b'n' then newline else d) ∷ []),
      ))
lens_longer (char {c} {s} a b l) text len n m h z =
    rw (split_char c s text a b, lens_char c s len a (rw b))
      (omega (
        arith,
        lens_longer l (text ++ (c ∷ [])) (len + 1) n m (sym (count_char c s n a b) ∙ h) z,
        length-append text (c ∷ []),
      ))
lens_longer (dangling {c} a b) text len n m h z = cc (count_dangling c n a b)
lens_longer (bad {c} {d} {s} a b e k) text len n m h z = cc (count_bad c d s n a b e k)

-- For a REPLACEMENT without an unknown escape in which no &, and no backslash before a digit 1 to
-- 9, stands behind a backslash, the lengths that the second swipe of parse_replace gives are, in
-- sum, longer than the texts of the parts by one for each escape that is not a reference.
pub part_lens-escapes :
    (s : List ℕ) (l : Lexes s) (n : ℕ)
    → count_subs s 0 ≡ count n
    → hidden l ≡ 0
    → sum (part_lens s 0) ≡ sum (map length (part_texts (split_parts s []))) + escapes l
part_lens-escapes s l n h z = omega (arith, lens_longer l [] 0 0 n h z)
