-- ===== src/Replacement/Fit.antt =====
-- The texts of the parts against the lengths that the second swipe gives them.
use mathlib.Core.List.{map}
use rrep.Base.{
  ℕ, ◌+◌, ◌≡◌, ◌≤◌, refl, sym, ap, ◌∙◌, false, ◌&&◌, List, [], ◌∷◌, arith, ◌==◌, if◌then◌else◌,
  length, length-append,
}
use rrep.Replacement.{
  amp, backslash, group_digit, count, count_subs, part_lens, split_parts, part_texts,
}
use rrep.Replacement.Lexing.{
  Lexes, end, whole, group, escape, char, dangling, bad, digit_next, count_whole, count_group,
  count_escape, count_bad, count_dangling, count_char, lens_whole, lens_group, lens_char,
  split_whole, split_group, split_escape, split_char,
}
use rrep.Replacement.Swipes.{hidden, split_nil, lens_nil}

-- Each text fits into its part.
abbrev pub Fits : List (List ℕ) → List ℕ → Type 0
Fits [] [] = Unit
Fits [] (n ∷ ns) = ⊥
Fits (t ∷ ts) [] = ⊥
Fits (t ∷ ts) (n ∷ ns) = (length t ≤ n) × Fits ts ns

-- Whether an escape hides a separator.
abbrev pub hides : ℕ → List ℕ → ℕ
hides d s = if d == amp then 1 else if d == backslash && digit_next s then 1 else 0

-- An escape that hides no separator adds two to the length of the part.
pub lens_escape :
    (c d : ℕ) (s : List ℕ) (len : ℕ)
    → (c == amp) ≡ false
    → group_digit d ≡ false
    → hides d s ≡ 0
    → part_lens (c ∷ d ∷ s) len ≡ part_lens s (len + 1 + 1)
lens_escape c d s len a g h =
    lens_char c (d ∷ s) len a (ground (arith, g))
    ∙ lens_char d s (len + 1) (ground arith) (ground arith)

-- Where no separator is hidden, the second swipe reserves enough for each part.
pub texts_fit :
    {s : List ℕ} (l : Lexes s) (text : List ℕ) (len n m : ℕ)
    → count_subs s n ≡ count m
    → hidden l ≡ 0
    → length text ≤ len
    → Fits (part_texts (split_parts s text)) (part_lens s len)
texts_fit end text len n m h z le = rw (split_nil text, lens_nil len) (le, tt)
texts_fit (whole {c} {s} a l) text len n m h z le =
    rw (split_whole c s text a, lens_whole c s len a)
      (le, texts_fit l [] 0 (n + 1) m (sym (count_whole c s n a) ∙ h) z (omega arith))
texts_fit (group {c} {d} {s} a b g l) text len n m h z le =
    rw (split_group c d s text a b g, lens_group c d s len a b g)
      (le, texts_fit l [] 0 (n + 1) m (sym (count_group c d s n a b g) ∙ h) z (omega arith))
texts_fit (escape {c} {d} {s} a b g k l) text len n m h z le =
    rw (split_escape c d s text a b g, lens_escape c d s len a g (omega arith))
      (texts_fit l _ (len + 1 + 1) n m (sym (count_escape c d s n a b g k) ∙ h) (omega arith)
        (omega (arith, length-append text ((if d == b'n' then 10 else d) ∷ []))))
texts_fit (char {c} {s} a b l) text len n m h z le =
    rw (split_char c s text a b, lens_char c s len a (rw b))
      (texts_fit l _ (len + 1) n m (sym (count_char c s n a b) ∙ h) z
        (omega (arith, length-append text (c ∷ []))))
texts_fit (dangling {c} a b) text len n m h z le = cc (count_dangling c n a b)
texts_fit (bad {c} {d} {s} a b g k) text len n m h z le = cc (count_bad c d s n a b g k)

-- A string whose only escapes are references.
abbrev pub NoEscape : {s : List ℕ} → Lexes s → Type 0
NoEscape end = Unit
NoEscape (whole a l) = NoEscape l
NoEscape (group a b g l) = NoEscape l
NoEscape (escape a b g k l) = ⊥
NoEscape (char a b l) = NoEscape l
NoEscape (dangling a b) = ⊥
NoEscape (bad a b g k) = ⊥

-- There no separator is hidden.
pub NoEscape-hidden : {s : List ℕ} (l : Lexes s) → NoEscape l → hidden l ≡ 0
NoEscape-hidden end p = refl
NoEscape-hidden (whole a l) p = NoEscape-hidden l p
NoEscape-hidden (group a b g l) p = NoEscape-hidden l p
NoEscape-hidden (escape a b g k l) p = absurd p
NoEscape-hidden (char a b l) p = NoEscape-hidden l p
NoEscape-hidden (dangling a b) p = refl
NoEscape-hidden (bad a b g k) p = refl

-- There the lengths are those of the texts.
pub lens_exact :
    {s : List ℕ} (l : Lexes s) (text : List ℕ) (len : ℕ)
    → NoEscape l
    → length text ≡ len
    → part_lens s len ≡ map length (part_texts (split_parts s text))
lens_exact end text len p e = rw (split_nil text, lens_nil len, e)
lens_exact (whole {c} {s} a l) text len p e =
    rw (split_whole c s text a, lens_whole c s len a, e)
      (ap (λ t. len ∷ t) (lens_exact l [] 0 p refl))
lens_exact (group {c} {d} {s} a b g l) text len p e =
    rw (split_group c d s text a b g, lens_group c d s len a b g, e)
      (ap (λ t. len ∷ t) (lens_exact l [] 0 p refl))
lens_exact (escape a b g k l) text len p e = absurd p
lens_exact (char {c} {s} a b l) text len p e =
    rw (split_char c s text a b, lens_char c s len a (rw b))
      (lens_exact l _ (len + 1) p (omega (arith, length-append text (c ∷ []))))
lens_exact (dangling a b) text len p e = absurd p
lens_exact (bad a b g k) text len p e = absurd p
