-- ===== src/Pattern.antt =====
-- src/pattern.c and src/pattern.h: PATTERN, and the search for it in a line. A line is the list of
-- its bytes; the C string at a position ends at the first NUL, at the latest behind the line.
pub mod Strings
pub mod Fixed
pub mod Regex
pub mod Place
pub mod Parse
use mathlib.Core.Option
use rrep.Base.{
  ℕ, zero, suc, ◌+◌, ◌-◌, Bool, true, false, not, ◌&&◌, ◌||◌, Option, none, some, ◌⊎◌, List, [],
  ◌∷◌, leb, ltb, ◌==◌, if◌then◌else◌, length, get_or, drop, replicate,
}
use rrep.Options.{Options}
use rrep.Bufferio.{newline}

-- regmatch_t. An unused entry has rm_so = -1 and is `none` in a list of them.
pub record Span : Type 0 where
  pub so : ℕ
  pub eo : ℕ

-- What regexec returns: match[0] and match[1] to match[9], REG_NOMATCH, or another error code.
-- `starved` is a search of the model that ran out of fuel.
pub data Match : Type 0 where
  matched : Span → List (Option Span) → Match
  no_match : Match
  regerror : ℕ → Match
  starved : Match

-- The functions of <regex.h> that the program calls. The flags of regcomp are REG_EXTENDED and
-- REG_ICASE, the flag of regexec is REG_NOTBOL.
pub record Engine : Type 1 where
  pub Regex : Type 0
  pub regcomp : List ℕ → Bool → Bool → ℕ ⊎ Regex
  pub regexec : Regex → List ℕ → Bool → Match

-- The characters from A to Z, a to z, 0 to 9, and the underscore.
pub word_char : ℕ → Bool
word_char c =
    (leb b'A' c && leb c b'Z')
    || (leb b'a' c && leb c b'z')
    || (leb b'0' c && leb c b'9')
    || c == b'_'

-- check_whole (line, line + at, len)
unfoldable pub check_whole : Options → List ℕ → ℕ → ℕ → Bool
check_whole o line at len =
    let c = get_or line (at + len) 0 in
    if not o.whole_word && not o.whole_line
    then true
    else if ltb 0 at && (o.whole_line || word_char (get_or line (at - 1) 0))
    then false
    else if not (c == newline) && (o.whole_line || word_char c)
    then false
    else true

-- The C string that begins at a position of a line.
unfoldable pub cstr : List ℕ → List ℕ
cstr [] = []
cstr (c ∷ s) = let rest = cstr s in if c == 0 then [] else c ∷ rest

abbrev pub string_at : List ℕ → ℕ → List ℕ
string_at line p = cstr (drop p line)

unfoldable pub is_prefix : List ℕ → List ℕ → Bool
is_prefix [] s = true
is_prefix (x ∷ p) [] = false
is_prefix (x ∷ p) (c ∷ s) = x == c && is_prefix p s

-- strstr: the offset of the first occurrence.
unfoldable pub strstr : List ℕ → List ℕ → Option ℕ
unfolding is_prefix
strstr [] p = if is_prefix p [] then some 0 else none
strstr (c ∷ s) p =
    let later = Option.map suc (strstr s p) in if is_prefix p (c ∷ s) then some 0 else later

-- The branch of match_pattern for OPT_FIXED. The loop looks from the offset k from `start` on for
-- an occurrence that check_whole accepts; a rejected occurrence is skipped as a whole.
unfoldable pub find_fixed : ℕ → Options → List ℕ → List ℕ → ℕ → ℕ → Match
find_fixed zero o pat line start k = starved
find_fixed (suc fuel) o pat line start k = elim (strstr (string_at line (start + k)) pat) [
  | none ↦ no_match
  | some i ↦ elim (check_whole o line (start + (k + i)) (length pat)) [
    | true ↦ matched (record { so = k + i; eo = k + i + length pat }) (replicate 9 none)
    | false ↦ find_fixed fuel o pat line start (k + i + length pat)
  ]
]

-- Each round passes over the pattern, which is not empty, so the fuel is enough.
unfoldable pub match_fixed : Options → List ℕ → List ℕ → ℕ → Match
unfolding find_fixed
match_fixed o pat line start = find_fixed (length line + 1) o pat line start 0

abbrev shift_span : ℕ → Span → Span
shift_span k m = record { so = m.so + k; eo = m.eo + k }

-- The correction of the offsets, from the place of the last search to `start`.
abbrev shift_spans : ℕ → List (Option Span) → List (Option Span)
shift_spans k [] = []
shift_spans k (m ∷ ms) = Option.map (shift_span k) m ∷ shift_spans k ms

module _ (E : Engine) where
  -- pattern_t. The compiled expression is missing for OPT_FIXED.
  pub record Pattern : Type 0 where
    pub string : List ℕ
    pub compiled : Option E.Regex

  -- The do-while loop of match_pattern for a regular expression, from the search at offset k on.
  unfoldable pub find_regex : ℕ → Options → E.Regex → List ℕ → ℕ → ℕ → Match
  find_regex zero o re line start k = starved
  find_regex (suc fuel) o re line start k =
      elim (E.regexec re (string_at line (start + k)) (not (start + k == 0))) [
        | no_match ↦ no_match
        | regerror e ↦ regerror e
        | starved ↦ starved
        | matched m subs ↦ elim (check_whole o line (start + k + m.so) (m.eo - m.so)) [
          | true ↦ matched (shift_span k m) (shift_spans k subs)
          | false ↦ elim (m.eo == 0) [
            | false ↦ find_regex fuel o re line start (k + m.eo)
            | true ↦
                let c = get_or line (start + k) 0 in
                elim (c == newline || c == 0) [
                  | true ↦ no_match
                  | false ↦ find_regex fuel o re line start (k + 1)
                ]
          ]
        ]
      ]

  -- match_pattern. Without a compiled expression the program would not come here.
  unfoldable pub match_pattern : Options → Pattern → List ℕ → ℕ → Match
  unfolding match_fixed find_regex
  match_pattern o pattern line start =
      if o.fixed then match_fixed o pattern.string line start else elim pattern.compiled [
        | none ↦ no_match
        | some re ↦ find_regex (length line + 2) o re line start 0
      ]
