-- ===== src/Tests/Expand.antt =====
-- What references and escapes of REPLACEMENT write.
use mathlib.Core.List.{map}
use rrep.Base.{ℕ, ◌≡◌, refl, ◌+◌, Option, some, List, [], ◌∷◌, bytes, length}
use rrep.Options.{no_options}
use rrep.Bufferio.Memory.{window, store_all}
use rrep.Pattern.{Span}
use rrep.Replacement.{
  Replace, parsed, count_subs, part_lens, split_parts, part_texts, parse_replace, text_block,
}
use rrep.Replacement.Lexing.{lex}
use rrep.Replacement.Substitute.{substitute, escapes, sum, part_lens-escapes}
use rrep.Replace.{stream, match_at, write_replacement, put_parts, write_string}
use rrep.Replace.Expand.{groups, write_replacement-substitute}
use rrep.Replace.Write.{Emits}
use rrep.Tests.{plenty, zeros}

-- `<&|\1>` for the match `ell` of `hello` with the group `l`.
abbrev marked : List ℕ
marked = bytes "<&|\\1>"

abbrev ell : Span
ell = record { so = 1; eo = 4 }

abbrev l_group : List (Option Span)
l_group = some (record { so = 2; eo = 3 }) ∷ []

write_replacement-substitute_example :
    (r : Replace) × (parse_replace plenty zeros no_options marked ≡ parsed r)
    × Emits plenty
        (stream [])
        (substitute
          (lex marked)
          (groups plenty zeros (bytes "hello") 0 (match_at plenty ell l_group)))
        (write_replacement plenty no_options (stream []) (bytes "hello") 0 ell l_group r)
unfolding count_subs lex
write_replacement-substitute_example =
    write_replacement-substitute plenty zeros no_options marked 2 (bytes "hello") 0 ell l_group
      (stream []) refl refl tt (λ k. refl) tt

marked_text :
    substitute (lex marked) (groups plenty zeros (bytes "hello") 0 (match_at plenty ell l_group))
    ≡ bytes "<ell|l>"
unfolding lex
marked_text = refl

-- `x\n` is stored as a part of two characters and a NUL, and all three are written.
abbrev with_newline : List ℕ
with_newline = bytes "x\\n"

abbrev stored : Replace
stored = record {
  string = with_newline;
  part = text_block zeros (b'x' ∷ 10 ∷ []) ∷ [];
  part_len = 3 ∷ [];
  sub = [];
  nsub = 0;
}

newline_run : parse_replace plenty zeros no_options with_newline ≡ parsed stored
unfolding parse_replace
newline_run = refl

nul_written :
    (write_replacement plenty no_options (stream []) (bytes "hello") 0 ell l_group stored).0
    ≡ stream (b'x' ∷ 10 ∷ 0 ∷ [])
unfolding write_replacement put_parts write_string window store_all
nul_written = refl

part_lens-escapes_example :
    sum (part_lens with_newline 0)
    ≡ sum (map length (part_texts (split_parts with_newline []))) + escapes (lex with_newline)
unfolding count_subs lex
part_lens-escapes_example = part_lens-escapes with_newline (lex with_newline) 0 refl refl
