-- ===== src/Replacement/Lexing.antt =====
-- REPLACEMENT as a sequence of characters, references and escapes, and the three swipes over it, one
-- step at a time.
use rrep.Base.{
  ℕ, ◌+◌, ◌-◌, ◌≡◌, Bool, true, false, ◌&&◌, List, [], ◌∷◌, ◌++◌, ◌==◌, Bool-cases, inl, inr,
  if◌then◌else◌,
}
use rrep.Replacement.{
  amp, backslash, group_digit, known_escape, unknown, count_subs, part_lens, split_parts,
  close_part,
}
use rrep.Bufferio.{newline}

-- How a string is read from the left: `&`, `\1` to `\9`, one of the three escapes, any other
-- character; or a backslash with something else or nothing behind it.
pub data Lexes : List ℕ → Type 0 where
  end : Lexes []
  whole : {c : ℕ} {s : List ℕ} → (c == amp) ≡ true → Lexes s → Lexes (c ∷ s)
  group :
      {c d : ℕ} {s : List ℕ}
      → (c == amp) ≡ false
      → (c == backslash) ≡ true
      → group_digit d ≡ true
      → Lexes s
      → Lexes (c ∷ d ∷ s)
  escape :
      {c d : ℕ} {s : List ℕ}
      → (c == amp) ≡ false
      → (c == backslash) ≡ true
      → group_digit d ≡ false
      → known_escape d ≡ true
      → Lexes s
      → Lexes (c ∷ d ∷ s)
  char :
      {c : ℕ} {s : List ℕ} → (c == amp) ≡ false → (c == backslash) ≡ false → Lexes s → Lexes (c ∷ s)
  dangling : {c : ℕ} → (c == amp) ≡ false → (c == backslash) ≡ true → Lexes (c ∷ [])
  bad :
      {c d : ℕ} {s : List ℕ}
      → (c == amp) ≡ false
      → (c == backslash) ≡ true
      → group_digit d ≡ false
      → known_escape d ≡ false
      → Lexes (c ∷ d ∷ s)

lex_one : (c : ℕ) → Lexes (c ∷ [])
lex_one c = elim (Bool-cases (c == amp)) [
  | inl a ↦ whole a end
  | inr a ↦ elim (Bool-cases (c == backslash)) [ inl b ↦ dangling a b | inr b ↦ char a b end ]
]

lex_two : (c d : ℕ) (s : List ℕ) → Lexes (d ∷ s) → Lexes s → Lexes (c ∷ d ∷ s)
lex_two c d s next after = elim (Bool-cases (c == amp)) [
  | inl a ↦ whole a next
  | inr a ↦ elim (Bool-cases (c == backslash)) [
    | inr b ↦ char a b next
    | inl b ↦ elim (Bool-cases (group_digit d)) [
      | inl g ↦ group a b g after
      | inr g ↦ elim (Bool-cases (known_escape d)) [
        | inl k ↦ escape a b g k after
        | inr k ↦ bad a b g k
      ]
    ]
  ]
]

-- Every string is read in one of these ways.
unfoldable pub lex : (s : List ℕ) → Lexes s
unfolding lex_one lex_two Bool-cases
lex [] = end
lex (c ∷ []) = lex_one c
lex (c ∷ d ∷ s) = lex_two c d s (lex (d ∷ s)) (lex s)

-- Whether a group's digit comes next.
abbrev pub digit_next : List ℕ → Bool
digit_next [] = false
digit_next (d ∷ s) = group_digit d

pub count_whole :
    (c : ℕ) (s : List ℕ) (n : ℕ) → (c == amp) ≡ true → count_subs (c ∷ s) n ≡ count_subs s (n + 1)
unfolding count_subs
count_whole c [] n a = rw a
count_whole c (d ∷ s) n a = rw (a, count_subs)

pub count_group :
    (c d : ℕ) (s : List ℕ) (n : ℕ)
    → (c == amp) ≡ false
    → (c == backslash) ≡ true
    → group_digit d ≡ true
    → count_subs (c ∷ d ∷ s) n ≡ count_subs s (n + 1)
unfolding count_subs
count_group c d s n a b g = rw (a, b, g, count_subs)

pub count_escape :
    (c d : ℕ) (s : List ℕ) (n : ℕ)
    → (c == amp) ≡ false
    → (c == backslash) ≡ true
    → group_digit d ≡ false
    → known_escape d ≡ true
    → count_subs (c ∷ d ∷ s) n ≡ count_subs s n
unfolding count_subs
count_escape c d s n a b g k = rw (a, b, g, k, count_subs)

pub count_bad :
    (c d : ℕ) (s : List ℕ) (n : ℕ)
    → (c == amp) ≡ false
    → (c == backslash) ≡ true
    → group_digit d ≡ false
    → known_escape d ≡ false
    → count_subs (c ∷ d ∷ s) n ≡ unknown d
unfolding count_subs
count_bad c d s n a b g k = rw (a, b, g, k, count_subs)

pub count_dangling :
    (c n : ℕ) → (c == amp) ≡ false → (c == backslash) ≡ true → count_subs (c ∷ []) n ≡ unknown 0
unfolding count_subs
count_dangling c n a b = rw (a, b)

pub count_char :
    (c : ℕ) (s : List ℕ) (n : ℕ)
    → (c == amp) ≡ false
    → (c == backslash) ≡ false
    → count_subs (c ∷ s) n ≡ count_subs s n
unfolding count_subs
count_char c [] n a b = rw (a, b)
count_char c (d ∷ s) n a b = rw (a, b, count_subs)

pub lens_whole :
    (c : ℕ) (s : List ℕ) (n : ℕ) → (c == amp) ≡ true → part_lens (c ∷ s) n ≡ n ∷ part_lens s 0
unfolding part_lens
lens_whole c [] n a = rw a
lens_whole c (d ∷ s) n a = rw (a, part_lens)

pub lens_group :
    (c d : ℕ) (s : List ℕ) (n : ℕ)
    → (c == amp) ≡ false
    → (c == backslash) ≡ true
    → group_digit d ≡ true
    → part_lens (c ∷ d ∷ s) n ≡ n ∷ part_lens s 0
unfolding part_lens
lens_group c d s n a b g = rw (a, b, g, part_lens)

-- A character that neither is `&` nor begins a reference is counted, a backslash too.
pub lens_char :
    (c : ℕ) (s : List ℕ) (n : ℕ)
    → (c == amp) ≡ false
    → (c == backslash && digit_next s) ≡ false
    → part_lens (c ∷ s) n ≡ part_lens s (n + 1)
unfolding part_lens
lens_char c [] n a b = rw a
lens_char c (d ∷ s) n a b = rw (a, b, part_lens)

pub split_whole :
    (c : ℕ) (s text : List ℕ)
    → (c == amp) ≡ true
    → split_parts (c ∷ s) text ≡ close_part text 0 (split_parts s [])
unfolding split_parts
split_whole c [] text a = rw a
split_whole c (d ∷ s) text a = rw (a, split_parts)

pub split_group :
    (c d : ℕ) (s text : List ℕ)
    → (c == amp) ≡ false
    → (c == backslash) ≡ true
    → group_digit d ≡ true
    → split_parts (c ∷ d ∷ s) text ≡ close_part text (d - b'0') (split_parts s [])
unfolding split_parts
split_group c d s text a b g = rw (a, b, g, split_parts)

pub split_escape :
    (c d : ℕ) (s text : List ℕ)
    → (c == amp) ≡ false
    → (c == backslash) ≡ true
    → group_digit d ≡ false
    → split_parts (c ∷ d ∷ s) text
      ≡ split_parts s (text ++ ((if d == b'n' then newline else d) ∷ []))
unfolding split_parts
split_escape c d s text a b g = rw (a, b, g, split_parts)

pub split_char :
    (c : ℕ) (s text : List ℕ)
    → (c == amp) ≡ false
    → (c == backslash) ≡ false
    → split_parts (c ∷ s) text ≡ split_parts s (text ++ (c ∷ []))
unfolding split_parts
split_char c [] text a b = rw a
split_char c (d ∷ s) text a b = rw (a, b, split_parts)
