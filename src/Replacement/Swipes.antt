-- ===== src/Replacement/Swipes.antt =====
-- How the three swipes of parse_replace fit together: the numbers of parts and references, and the
-- memory that the second swipe reserves for what the third one writes.
use rrep.Base.{
  ℕ, ◌+◌, ◌≡◌, refl, sym, ◌∙◌, true, false, ◌&&◌, List, [], ◌∷◌, arith, ◌==◌, Bool-cases, inl, inr,
  if◌then◌else◌, length,
}
use rrep.Replacement.{amp, backslash, group_digit, count, count_subs, part_lens, split_parts}
use rrep.Replacement.Lexing.{
  Lexes, end, whole, group, escape, char, dangling, bad, digit_next, count_whole, count_group,
  count_escape, count_bad, count_dangling, count_char, lens_whole, lens_group, lens_char,
  split_whole, split_group, split_escape, split_char,
}

-- The separators that the second swipe sees where there is none: the `&` of `\&`, and the second
-- backslash of `\\` before a digit.
abbrev pub hidden : {s : List ℕ} → Lexes s → ℕ
hidden end = 0
hidden (whole a l) = hidden l
hidden (group a b g l) = hidden l
hidden (escape {d = d} {s = s} a b g k l) =
    (if d == amp then 1 else if d == backslash && digit_next s then 1 else 0) + hidden l
hidden (char a b l) = hidden l
hidden (dangling a b) = 0
hidden (bad a b g k) = 0

pub counted_nil : (n m : ℕ) → count_subs [] n ≡ count m → n ≡ m
unfolding count_subs
counted_nil n m h = cc

pub lens_nil : (len : ℕ) → part_lens [] len ≡ len ∷ []
unfolding part_lens
lens_nil len = refl

pub split_nil : (text : List ℕ) → split_parts [] text ≡ ([], text)
unfolding split_parts
split_nil text = refl

-- The third swipe finds as many references as the first one has counted.
pub references_counted :
    {s : List ℕ} (l : Lexes s) (text : List ℕ) (n m : ℕ)
    → count_subs s n ≡ count m
    → length (split_parts s text).0 + n ≡ m
references_counted end text n m h = rw (split_nil text) (omega (arith, counted_nil n m h))
references_counted (whole {c} {s} a l) text n m h =
    rw (split_whole c s text a)
      (omega (arith, references_counted l [] (n + 1) m (sym (count_whole c s n a) ∙ h)))
references_counted (group {c} {d} {s} a b g l) text n m h =
    rw (split_group c d s text a b g)
      (omega (arith, references_counted l [] (n + 1) m (sym (count_group c d s n a b g) ∙ h)))
references_counted (escape {c} {d} {s} a b g k l) text n m h =
    rw (split_escape c d s text a b g)
      (references_counted l _ n m (sym (count_escape c d s n a b g k) ∙ h))
references_counted (char {c} {s} a b l) text n m h =
    rw (split_char c s text a b) (references_counted l _ n m (sym (count_char c s n a b) ∙ h))
references_counted (dangling {c} a b) text n m h = cc (count_dangling c n a b)
references_counted (bad {c} {d} {s} a b g k) text n m h = cc (count_bad c d s n a b g k)

-- The number of parts does not depend on the length of the first one.
length-part_lens : (s : List ℕ) (a b : ℕ) → length (part_lens s a) ≡ length (part_lens s b)
unfolding part_lens
length-part_lens [] a b = refl
length-part_lens (c ∷ []) a b = ground arith
length-part_lens (c ∷ d ∷ s) a b = ground (arith, length-part_lens (d ∷ s) (a + 1) (b + 1))

-- A digit is a character like others, if no backslash stands before it.
digit_char : (e : ℕ) → group_digit e ≡ true → ((e == amp) ≡ false) × ((e == backslash) ≡ false)
digit_char e h = ground arith

-- The second backslash of `\\` opens a reference if a digit comes next.
lens_double :
    (d : ℕ) (s : List ℕ) (len : ℕ)
    → (d == amp) ≡ false
    → (d == backslash) ≡ true
    → digit_next s ≡ true
    → length (part_lens (d ∷ s) len) ≡ length (part_lens s 0) + 1
lens_double d [] len a b g = cc
lens_double d (e ∷ s) len a b g =
    let (x, y) = digit_char e g in
    rw (lens_group d e s len a b g, lens_char e s 0 x (rw y))
      (omega (arith, length-part_lens s 0 (0 + 1)))

-- What the second swipe makes of the character behind a backslash.
pub lens_escaped :
    (d : ℕ) (s : List ℕ) (len : ℕ)
    → length (part_lens (d ∷ s) len)
      ≡ (if d == amp then 1 else if d == backslash && digit_next s then 1 else 0)
        + length (part_lens s 0)
lens_escaped d s len = elim (Bool-cases (d == amp)) [
  | inl a ↦ rw (a, lens_whole d s len a) (omega arith)
  | inr a ↦ elim (Bool-cases (d == backslash)) [
    | inr b ↦ rw (a, b, lens_char d s len a (rw b)) (omega (arith, length-part_lens s (len + 1) 0))
    | inl b ↦ elim (Bool-cases (digit_next s)) [
      | inl g ↦ rw (a, b, g) (omega (arith, lens_double d s len a b g))
      | inr g ↦
          rw (a, b, g, lens_char d s len a (rw (b, g)))
            (omega (arith, length-part_lens s (len + 1) 0))
    ]
  ]
]

-- The second swipe closes the counted parts, the last one, and one for each hidden separator.
pub parts_counted :
    {s : List ℕ} (l : Lexes s) (len n m : ℕ)
    → count_subs s n ≡ count m
    → length (part_lens s len) + n ≡ m + 1 + hidden l
parts_counted end len n m h = rw (lens_nil len) (omega (arith, counted_nil n m h))
parts_counted (whole {c} {s} a l) len n m h =
    rw (lens_whole c s len a)
      (omega (arith, parts_counted l 0 (n + 1) m (sym (count_whole c s n a) ∙ h)))
parts_counted (group {c} {d} {s} a b g l) len n m h =
    rw (lens_group c d s len a b g)
      (omega (arith, parts_counted l 0 (n + 1) m (sym (count_group c d s n a b g) ∙ h)))
parts_counted (escape {c} {d} {s} a b g k l) len n m h =
    rw (lens_char c (d ∷ s) len a (rw (b, g)), lens_escaped d s (len + 1))
      (omega (arith, parts_counted l 0 n m (sym (count_escape c d s n a b g k) ∙ h)))
parts_counted (char {c} {s} a b l) len n m h =
    rw (lens_char c s len a (rw b)) (parts_counted l (len + 1) n m (sym (count_char c s n a b) ∙ h))
parts_counted (dangling {c} a b) len n m h = cc (count_dangling c n a b)
parts_counted (bad {c} {d} {s} a b g k) len n m h = cc (count_bad c d s n a b g k)
