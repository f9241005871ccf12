-- ===== src/Replace/Pieces.antt =====
-- The search and replace that replace_string is meant to do in a line, for any matcher: which pieces
-- of the line are kept, and which matches are replaced.
use rrep.Base.{
  ℕ, ◌+◌, ◌-◌, ◌≤◌, ◌<◌, ◌≡◌, refl, sym, ap, ◌∙◌, Bool, true, false, ◌&&◌, Option, List, [], ◌∷◌,
  ◌++◌, arith, length, take, drop, ltb, ◌==◌, get_or, append-nil, take-append-drop, drop-drop,
}
use mathlib.Core.Path.{subst}
use rrep.Options.{Options}
use rrep.Bufferio.{newline}
use rrep.Pattern.{Engine, Pattern, Span, Match, matched, no_match, match_pattern}
use rrep.Pattern.Regex.{IsLawful}
use rrep.Pattern.Place.{Placed, match_pattern-Placed, before_end}

-- A piece of a line: text that is kept, or a match from a position on.
pub data Piece : Type 0 where
  kept : List ℕ → Piece
  found : ℕ → Span → List (Option Span) → Piece

-- An empty match is replaced unless it stands right behind another match.
abbrev pub replaced : Bool → ℕ → Span → List (Option Span) → List Piece → List Piece
replaced true start m subs ps = found start m subs ∷ ps
replaced false start m subs ps = ps

module _ (line : List ℕ) where
  -- The text that stands in the line where a match is.
  abbrev pub match_text : ℕ → Span → List ℕ
  match_text start m = take (m.eo - m.so) (drop (start + m.so) line)

  -- The pieces as they stand in the line.
  abbrev pub source : List Piece → List ℕ
  source [] = []
  source (kept s ∷ ps) = s ++ source ps
  source (found start m subs ∷ ps) = match_text start m ++ source ps

-- The pieces with each match replaced by its text.
abbrev pub target : (ℕ → Span → List (Option Span) → List ℕ) → List Piece → List ℕ
target text [] = []
target text (kept s ∷ ps) = s ++ target text ps
target text (found start m subs ∷ ps) = text start m subs ++ target text ps

module _ (E : Engine) (o : Options) (pattern : Pattern E) (line : List ℕ) where
  -- The position is at a NUL, or behind the line.
  abbrev pub at_nul : ℕ → Bool
  at_nul start = get_or line start 0 == 0

  abbrev pub behind_newline : ℕ → Bool
  behind_newline start = ltb 0 start && get_or line (start - 1) 0 == newline

  -- The pieces from a position on; the flag says that no match stands right before it. Behind a match
  -- the search goes on; an empty match is passed by one character.
  pub data Replaces : ℕ → Bool → List Piece → Type 0 where
    no_more :
        (start : ℕ) (last : Bool)
        → match_pattern E o pattern line start ≡ no_match
        → Replaces start last (kept (drop start line) ∷ [])
    line_end :
        (start : ℕ) (last : Bool)
        → at_nul start ≡ true
        → behind_newline start ≡ true
        → Replaces start last (kept (drop start line) ∷ [])
    text_end :
        (start : ℕ) (last : Bool) (m : Span) (subs : List (Option Span))
        → match_pattern E o pattern line start ≡ matched m subs
        → at_nul start ≡ true
        → behind_newline start ≡ false
        → Replaces start last (replaced last start m subs (kept (drop start line) ∷ []))
    empty_match :
        (start : ℕ) (last : Bool) (m : Span) (subs : List (Option Span)) (ps : List Piece)
        → match_pattern E o pattern line start ≡ matched m subs
        → at_nul start ≡ false
        → m.eo ≡ 0
        → Replaces (start + 1) true ps
        → Replaces start last (replaced last start m subs (kept (take 1 (drop start line)) ∷ ps))
    wide_match :
        (start : ℕ) (last : Bool) (m : Span) (subs : List (Option Span)) (ps : List Piece)
        → match_pattern E o pattern line start ≡ matched m subs
        → at_nul start ≡ false
        → 0 < m.eo
        → Replaces (start + m.eo) false ps
        → Replaces start last (kept (take m.so (drop start line)) ∷ found start m subs ∷ ps)

-- Two cuts of a list.
cut_twice :
    (line : List ℕ) (start so eo : ℕ)
    → so ≤ eo
    → take so (drop start line)
        ++ (take (eo - so) (drop (start + so) line) ++ drop (start + eo) line)
      ≡ drop start line
cut_twice line start so eo h =
    ap (λ t. take so (drop start line) ++ t)
      (ap (λ t. take (eo - so) (drop (start + so) line) ++ t) behind
        ∙ take-append-drop (eo - so) (drop (start + so) line)
        ∙ sym (drop-drop so start line))
    ∙ take-append-drop so (drop start line)
  where
    place : start + so + (eo - so) ≡ start + eo
    place = omega arith

    behind : drop (start + eo) line ≡ drop (eo - so) (drop (start + so) line)
    behind = ap (λ n. drop n line) (sym place) ∙ sym (drop-drop (eo - so) (start + so) line)

-- An empty match takes nothing of the line.
source-replaced :
    (line : List ℕ) (last : Bool) (start : ℕ) (m : Span) (subs : List (Option Span))
    (ps : List Piece)
    → m.eo ≡ 0
    → source line (replaced last start m subs ps) ≡ source line ps
source-replaced line false start m subs ps e = refl
source-replaced line true start m subs ps e =
    let none_left : m.eo - m.so ≡ 0 = omega arith in rw none_left

module _ (E : Engine) (lawful : IsLawful E) (o : Options) (pattern : Pattern E)
    (pos : 0 < length pattern.string) (line : List ℕ) where
  abbrev IsPlaced : ℕ → Match → Type 0
  IsPlaced = Placed E lawful o pattern pos line

  placed :
      (start : ℕ) (m : Span) (subs : List (Option Span))
      → start ≤ length line
      → match_pattern E o pattern line start ≡ matched m subs
      → IsPlaced start (matched m subs)
  placed start m subs h e =
      subst (IsPlaced start) e (match_pattern-Placed E lawful o pattern pos line start h)

  -- The pieces make up the line.
  pub Replaces-source :
      (start : ℕ) (last : Bool) (ps : List Piece)
      → start ≤ length line
      → Replaces E o pattern line start last ps
      → source line ps ≡ drop start line
  Replaces-source _ _ _ h (no_more start last e) = append-nil (drop start line)
  Replaces-source _ _ _ h (line_end start last n b) = append-nil (drop start line)
  Replaces-source _ _ _ h (text_end start last m subs e n b) =
      source-replaced line last start m subs (kept (drop start line) ∷ [])
        ((placed start m subs h e).2 n)
      ∙ append-nil (drop start line)
  Replaces-source _ _ _ h (empty_match start last m subs ps e n z d) =
      source-replaced line last start m subs (kept (take 1 (drop start line)) ∷ ps) z
      ∙ ap (λ t. take 1 (drop start line) ++ t)
          (Replaces-source (start + 1) true ps (omega (arith, before_end line start n)) d
            ∙ sym (drop-drop 1 start line))
      ∙ take-append-drop 1 (drop start line)
  Replaces-source _ _ _ h (wide_match start last m subs ps e n w d) =
      let (up, within, empty) = placed start m subs h e in
      ap (λ t. take m.so (drop start line) ++ (match_text line start m ++ t))
        (Replaces-source (start + m.eo) false ps within d)
      ∙ cut_twice line start m.so m.eo up
