-- ===== src/Replacement.antt =====
-- REPLACEMENT: parse_replace of src/pattern.c, which splits it into parts and references in three
-- swipes over the string, and replace_t of src/pattern.h.
pub mod Lexing
pub mod Swipes
pub mod Fit
pub mod Parse
pub mod Release
pub mod Memory
pub mod Substitute
use mathlib.Core.List.{map}
use rrep.Base.{
  ℕ, zero, suc, ◌+◌, ◌-◌, ◌*◌, Bool, true, false, not, ◌&&◌, ◌||◌, Option, none, some, List, [],
  ◌∷◌, ◌++◌, leb, ltb, ◌==◌, if◌then◌else◌, length,
}
use rrep.Options.{Options}
use rrep.Messages.{ErrCode, unknown_escape, alloc_replacement}
use rrep.Bufferio.{newline}
use rrep.Bufferio.Memory.{Block, store_all, window}

-- replace_t. A part is a block of memory; `part_len` says how much of it is written.
pub record Replace : Type 0 where
  pub string : List ℕ
  pub part : List Block
  pub part_len : List ℕ
  pub sub : List ℕ
  pub nsub : ℕ

abbrev pub amp : ℕ
amp = b'&'

abbrev pub backslash : ℕ
backslash = 92

abbrev pub group_digit : ℕ → Bool
group_digit c = leb b'1' c && leb c b'9'

abbrev pub known_escape : ℕ → Bool
known_escape c = c == amp || c == b'n' || c == backslash

-- The first swipe: the number of references to subpatterns, or the character of an unknown escape.
-- The character behind the string is NUL.
pub data Count : Type 0 where
  count : ℕ → Count
  unknown : ℕ → Count

unfoldable pub count_subs : List ℕ → ℕ → Count
count_subs [] n = count n
count_subs (c ∷ []) n =
    if c == amp then count (n + 1) else if c == backslash then unknown 0 else count n
count_subs (c ∷ d ∷ s) n = elim (c == amp) [
  | true ↦ count_subs (d ∷ s) (n + 1)
  | false ↦ elim (c == backslash) [
    | false ↦ count_subs (d ∷ s) n
    | true ↦ elim (group_digit d) [
      | true ↦ count_subs s (n + 1)
      | false ↦ elim (known_escape d) [ true ↦ count_subs s n | false ↦ unknown d ]
    ]
  ]
]

-- The second swipe: the lengths of the parts, one for each part that is closed. `len` counts the
-- characters of the current part.
unfoldable pub part_lens : List ℕ → ℕ → List ℕ
part_lens [] len = len ∷ []
part_lens (c ∷ []) len = if c == amp then len ∷ 0 ∷ [] else (len + 1) ∷ []
part_lens (c ∷ d ∷ s) len = elim (c == amp) [
  | true ↦ len ∷ part_lens (d ∷ s) 0
  | false ↦ elim (c == backslash && group_digit d) [
    | true ↦ len ∷ part_lens s 0
    | false ↦ part_lens (d ∷ s) (len + 1)
  ]
]

-- A part with a reference behind it, or the last part.
abbrev pub Pieces : Type 0
Pieces = List (List ℕ × ℕ) × List ℕ

abbrev pub close_part : List ℕ → ℕ → Pieces → Pieces
close_part text i p = ((text, i) ∷ p.0, p.1)

-- The third swipe: the text of each part before the last one with the index of the reference that
-- follows it, and the text of the last part. `text` is what the current part holds.
unfoldable pub split_parts : List ℕ → List ℕ → Pieces
split_parts [] text = ([], text)
split_parts (c ∷ []) text = if c == amp then ((text, 0) ∷ [], []) else ([], text ++ (c ∷ []))
split_parts (c ∷ d ∷ s) text = elim (c == amp) [
  | true ↦ close_part text 0 (split_parts (d ∷ s) [])
  | false ↦ elim (c == backslash) [
    | false ↦ split_parts (d ∷ s) (text ++ (c ∷ []))
    | true ↦ elim (group_digit d) [
      | true ↦ close_part text (d - b'0') (split_parts s [])
      | false ↦ split_parts s (text ++ ((if d == b'n' then newline else d) ∷ []))
    ]
  ]
]

-- A block of fresh memory that holds a text and the NUL behind it.
abbrev pub text_block : Block → List ℕ → Block
text_block garbage text = store_all garbage 0 (text ++ (0 ∷ []))

abbrev pub part_texts : Pieces → List (List ℕ)
part_texts p = map (λ (text, i). text) p.0 ++ (p.1 ∷ [])

abbrev pub sub_indices : Pieces → List ℕ
sub_indices p = map (λ (text, i). i) p.0

-- How parse_replace ends. `overflow` is a write behind the arrays `part` and `part_len`.
pub data Parsed : Type 0 where
  parsed : Replace → Parsed
  rejected : ErrCode → List ℕ → Parsed
  overflow : Parsed

-- How the second swipe ends.
pub data Room : Type 0 where
  enough : Room
  refused : Room
  exceeded : Room

-- `alloc n` says whether malloc can give n bytes, `garbage` is what fresh memory holds. A pointer
-- and a size_t take 8 bytes, an int takes 4.
module _ (alloc : ℕ → Bool) (garbage : Block) where
  -- The stores of the second swipe: a part for each length, in arrays with room for so many. The
  -- store of the pointer comes before the test of it.
  unfoldable pub store_parts : ℕ → List ℕ → Room
  store_parts room [] = enough
  store_parts zero (len ∷ lens) = exceeded
  store_parts (suc room) (len ∷ lens) = elim (alloc (len + 1)) [
    | true ↦ store_parts room lens
    | false ↦ refused
  ]

  -- The second and the third swipe.
  abbrev pub fill_parts : List ℕ → ℕ → Parsed
  fill_parts string n = elim (store_parts (n + 1) (part_lens string 0)) [
    | exceeded ↦ overflow
    | refused ↦ rejected alloc_replacement []
    | enough ↦
        let pieces = split_parts string [] in
        parsed (record {
          string = string;
          part = map (text_block garbage) (part_texts pieces);
          part_len = part_lens string 0;
          sub = sub_indices pieces;
          nsub = n;
        })
  ]

  -- parse_replace. The text beside an error code is the argument of the message.
  unfoldable pub parse_replace : Options → List ℕ → Parsed
  unfolding store_parts count_subs part_lens split_parts
  parse_replace o string =
      if not (alloc (length string + 1))
      then rejected alloc_replacement []
      else if o.fixed
      then parsed (record { string = string; part = []; part_len = []; sub = []; nsub = 0 })
      else elim (count_subs string 0) [
        | unknown c ↦ rejected unknown_escape (backslash ∷ c ∷ [])
        | count n ↦
            if alloc ((n + 1) * 8) && alloc ((n + 1) * 8) && alloc (n * 4)
            then fill_parts string n
            else rejected alloc_replacement []
      ]
