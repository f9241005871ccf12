-- ===== src/Tests/Regex.antt =====
-- A small engine for regular expressions, and calls with it.
use rrep.Base.{
  ℕ, ◌≡◌, ◌≤◌, refl, ◌⊎◌, inl, inr, Bool, true, false, some, List, [], ◌∷◌, arith, bytes, length,
  if◌then◌else◌, Bool-cases, ◌==◌,
}
use mathlib.Core.Path.{subst}
use rrep.Options.{Options, no_options}
use rrep.Bufferio.{File, read_line, search, scan, grow, finish_line}
use rrep.Bufferio.Memory.{window, store_all}
use rrep.EachLine.{done, whole_file}
use rrep.Pattern.{
  Engine, Pattern, Match, matched, no_match, regerror, starved, match_pattern, cstr, check_whole,
}
use rrep.Pattern.Regex.{IsLawful, FindsRegex, match_regex-FindsRegex}
use rrep.Replacement.{Replace}
use rrep.Replace.{stream, replace_string, on_match, write_string, write_replacement}
use rrep.World.{World}
use rrep.Tests.{plenty, small}
use rrep.Tests.Files.{world}

-- The expression is one character that may be missing.
abbrev exec : ℕ → List ℕ → Bool → Match
exec c [] notbol = matched (record { so = 0; eo = 0 }) []
exec c (d ∷ s) notbol =
    if c == d
    then matched (record { so = 0; eo = 1 }) []
    else matched (record { so = 0; eo = 0 }) []

abbrev compile : List ℕ → Bool → Bool → ℕ ⊎ ℕ
compile [] extended icase = inl 1
compile (c ∷ s) extended icase = inr c

abbrev pub maybe_char : Engine
maybe_char = record { Regex = ℕ; regcomp = compile; regexec = exec }

-- The offsets of an answer, and that it is one.
abbrev InString : List ℕ → Match → Type 0
InString s (matched m subs) = (m.so ≤ m.eo) × (m.eo ≤ length s)
InString s no_match = Unit
InString s (regerror e) = Unit
InString s starved = ⊥

exec-InString : (c : ℕ) (s : List ℕ) (notbol : Bool) → InString s (exec c s notbol)
exec-InString c [] notbol = (omega arith, omega arith)
exec-InString c (d ∷ s) notbol = elim (Bool-cases (c == d)) [
  | inl e ↦ rw e (omega arith, omega arith)
  | inr e ↦ rw e (omega arith, omega arith)
]

pub maybe_char-IsLawful : IsLawful maybe_char
maybe_char-IsLawful = record {
  ordered = λ re s notbol m subs e. (subst (InString s) e (exec-InString re s notbol)).0;
  inside = λ re s notbol m subs e. (subst (InString s) e (exec-InString re s notbol)).1;
  answers = λ re s notbol e. subst (InString s) e (exec-InString re s notbol);
}

abbrev pub maybe_a : Pattern maybe_char
maybe_a = record { string = bytes "a?"; compiled = some b'a' }

abbrev x : Replace
x = record { string = bytes "x"; part = (λ i. b'x') ∷ []; part_len = 1 ∷ []; sub = []; nsub = 0 }

abbrev bac : File
bac = record { rest = bytes "bac"; bad = false; eof = false; error = false; closes = 0 }

bac_run :
    (replace_string maybe_char plenty no_options maybe_a x small bac (stream [])).0
    ≡ done (stream (bytes "xbxcx"))
unfolding replace_string whole_file read_line search scan store_all grow finish_line window
    match_pattern cstr check_whole on_match write_string write_replacement
bac_run = refl

abbrev words : Options
words = record no_options { whole_word = true }

match_regex-FindsRegex_example :
    FindsRegex maybe_char maybe_char-IsLawful words b'a'
      (bytes "bac")
      1
      (match_pattern maybe_char words maybe_a (bytes "bac") 1)
match_regex-FindsRegex_example =
    match_regex-FindsRegex maybe_char maybe_char-IsLawful words b'a' (bytes "bac") 1 (bytes "a?")
      refl (omega arith)

abbrev bac_world : World
bac_world = record world { files = λ name. some (bytes "bac") }
