-- ===== src/Main/Same.antt =====
-- The whole program with the REPLACEMENT that stands for the match.
use mathlib.Core.List.{flatten}
use rrep.Base.{
  ℕ, ◌≡◌, ◌≢◌, ◌<◌, refl, ap, ◌∙◌, ◌⊎◌, inl, inr, Bool, true, false, Option, some, List, [], ◌∷◌,
  ◌++◌, arith, append-nil, bytes, length,
}
use rrep.Options.{no_options}
use rrep.Bufferio.Memory.{Block}
use rrep.Bufferio.Lines.{lines, flatten-lines}
use rrep.Heap.{Heap}
use rrep.Pattern.{Engine, Pattern, Span, regerror, match_pattern}
use rrep.Pattern.Regex.{IsLawful}
use rrep.Replacement.{count, count_subs}
use rrep.Replacement.Lexing.{Lexes, lex, end, whole, char, dangling}
use rrep.Replacement.Fit.{NoEscape}
use rrep.Replacement.Substitute.{substitute}
use rrep.Replace.Pieces.{Piece, kept, found, match_text, source, target, Replaces-source}
use rrep.Replace.Expand.{substituted}
use rrep.Replace.EditedFile.{Texts, targets, ReplacesEach}
use rrep.World.{success, failure}
use rrep.Names.{Excludes}
use rrep.Walk.{Walk}
use rrep.Main.{Input, Outcome, exits, main}
use rrep.Main.Regex.{substitution, Substitutes, main_regex}

-- The one way to read it.
amp-NoEscape : (l : Lexes (bytes "&")) → NoEscape l
amp-NoEscape (whole a end) = tt
amp-NoEscape (char a b end) = absurd cc
amp-NoEscape (dangling a b) = absurd cc

amp_substitute : (l : Lexes (bytes "&")) (g : ℕ → List ℕ) → substitute l g ≡ g 0 ++ []
amp_substitute (whole a end) g = refl
amp_substitute (char a b end) g = absurd cc
amp_substitute (dangling a b) g = absurd cc

amp_count : count_subs (bytes "&") 0 ≡ count 1
unfolding count_subs
amp_count = refl

amp_text :
    (alloc : ℕ → Bool) (garbage : Block) (line : List ℕ) (start : ℕ) (m : Span)
    (subs : List (Option Span))
    → substituted alloc garbage (bytes "&") line start m subs ≡ match_text line start m
amp_text alloc garbage line start m subs =
    amp_substitute (lex (bytes "&")) _ ∙ append-nil (match_text line start m)

-- Where each match is replaced by itself, the pieces are as they stand in the line.
target-source :
    (line : List ℕ) (text : ℕ → Span → List (Option Span) → List ℕ) (ps : List Piece)
    → ((start : ℕ) (m : Span) (subs : List (Option Span))
        → text start m subs ≡ match_text line start m)
    → target text ps ≡ source line ps
target-source line text [] h = refl
target-source line text (kept s ∷ ps) h = ap (λ t. s ++ t) (target-source line text ps h)
target-source line text (found start m subs ∷ ps) h =
    rw (h start m subs) (ap (λ t. match_text line start m ++ t) (target-source line text ps h))

module _ (E : Engine) (lawful : IsLawful E) (pattern : Pattern E) (pos : 0 < length pattern.string)
    (text : Texts)
    (same : (line : List ℕ) (start : ℕ) (m : Span) (subs : List (Option Span))
      → text line start m subs ≡ match_text line start m) where
  targets-flatten :
      (ls : List (List ℕ)) (pss : List (List Piece))
      → ReplacesEach E no_options pattern ls pss
      → targets text ls pss ≡ flatten ls
  unfolding flatten
  targets-flatten [] [] d = refl
  targets-flatten [] (ps ∷ pss) d = absurd d
  targets-flatten (l ∷ ls) [] d = absurd d
  targets-flatten (l ∷ ls) (ps ∷ pss) (d, ds) =
      rw
        (
          target-source l (text l) ps (same l),
          Replaces-source E lawful no_options pattern pos l 0 true ps (omega arith) d,
        )
        (ap (λ t. l ++ t) (targets-flatten ls pss ds))

-- Success with the text on standard output; or failure, where regexec has failed in a line.
abbrev pub CopiesOrFails : (E : Engine) → Pattern E → List ℕ → Outcome → Type 0
CopiesOrFails E pattern text x =
    (x.exit ≡ exits success) × (x.stdout ≡ text)
    ⊎ (x.exit ≡ exits failure)
      × ((l : List ℕ) × (k e : ℕ) × (match_pattern E no_options pattern l k ≡ regerror e))

module _ (E : Engine) (lawful : IsLawful E) (X : Excludes) (alloc : ℕ → Bool) (regex_size : ℕ)
    (garbage : Block) (heap : Heap) (input : Input) (grants : (n : ℕ) → alloc n ≡ true) where
  copies :
      (pattern : Pattern E) (text : List ℕ) (x : Outcome)
      → 0 < length pattern.string
      → Substitutes E pattern (substituted alloc garbage (bytes "&")) (lines false text) x
      → CopiesOrFails E pattern text x
  copies pattern text x pos (inl (e, (pss, d, w))) = inl (
    e,
    w
        ∙ targets-flatten E lawful pattern pos (substituted alloc garbage (bytes "&"))
            (amp_text alloc garbage) (lines false text) pss d
        ∙ flatten-lines false text,
  )
  copies pattern text x pos (inr h) = inr h

  -- Where malloc and realloc grant every size and regexec keeps to its interface: rrep PATTERN &
  -- with a PATTERN that is not empty and that regcomp accepts writes a standard input that is not
  -- empty and is read without a device error to standard output as it is and ends with SUCCESS,
  -- whatever bytes it holds; or it ends with FAILURE, and regexec fails on some line.
  pub main_same :
      (p text : List ℕ) (re : E.Regex) (s : Walk)
      → 0 < length p
      → text ≢ []
      → E.regcomp p false false ≡ inr re
      → CopiesOrFails E
          (record { string = p; compiled = some re })
          text
          (main E X alloc regex_size garbage heap (substitution p (bytes "&") text input) s)
  main_same p text re s pos some_bytes compiles =
      copies (record { string = p; compiled = some re }) text
        (main E X alloc regex_size garbage heap (substitution p (bytes "&") text input) s) pos
        (main_regex E lawful X alloc regex_size garbage heap input grants p (bytes "&") text re 1 s
          pos some_bytes compiles amp_count (amp-NoEscape (lex (bytes "&"))))
