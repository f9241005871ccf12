-- ===== src/Tests.antt =====
-- Runs of the code on small inputs, and the theorems at inputs that meet their hypotheses.
mod Files
mod Regex
mod Expand
mod Memory
mod Walking
mod Program
use mathlib.Core.List.{flat_map}
use rrep.Base.{
  bytes, ℕ, ◌+◌, ◌≡◌, ◌≢◌, refl, Bool, true, false, List, [], ◌∷◌, ◌++◌, arith, none, inr,
}
use rrep.Options.{Options, no_options}
use rrep.Messages.{unknown_escape}
use rrep.Bufferio.{File, Reader, opened, read_line, success, search, finish_line, scan, grow}
use rrep.Bufferio.Memory.{Block, window, store_all}
use rrep.Bufferio.Lines.{lines}
use rrep.Bufferio.Search.{Ready, pending, Delivers}
use rrep.Bufferio.Calls.{Fresh, read_line_first, read_line_next, read_line_empty}
use rrep.EachLine.{Step, next, done, whole_file}
use rrep.EachLine.Refine.{Over}
use rrep.EachLine.AnyFile.{read_lines, whole_file-Over}
use rrep.Pattern.{
  Engine, Pattern, is_prefix, strstr, cstr, match_pattern, match_fixed, no_match, check_whole,
}
use rrep.Pattern.Fixed.{AnyPlace, Finds, match_fixed-Finds}
use rrep.Replacement.{Replace, parsed, rejected, count_subs, parse_replace, backslash}
use rrep.Replacement.Lexing.{lex}
use rrep.Replacement.Parse.{Stored, parse_replace-Stored}
use rrep.Replace.{stream, buffered, replace_string, write_string, on_match, write_replacement}
use rrep.Replace.Write.{Emits, write_string-Emits}
use rrep.Replace.Global.{replace_all}
use rrep.Replace.Text.{Text}
use rrep.Replace.WholeFile.{EmitsFile, rewritten, replace_string-lines, replace_string_fixed}

abbrev plenty : ℕ → Bool
plenty n = true

abbrev pub zeros : Block
zeros i = 0

-- A buffer of four bytes, so that lines have to be moved and the buffer has to grow.
abbrev small : Reader
small = record {
  buffer = zeros;
  buffer_size = 4;
  start = 0;
  search_pos = 1;
  buffer_fill = 0;
  null_replace = 0;
}

-- An engine that finds nothing.
abbrev no_engine : Engine
no_engine = record { Regex = ℕ; regcomp = λ s e i. inr 0; regexec = λ re s notbol. no_match }

abbrev fixed_strings : Options
fixed_strings = record no_options { fixed = true }

abbrev old : Pattern no_engine
old = record { string = bytes "ab"; compiled = none }

abbrev new : Replace
new = record { string = bytes "xyz"; part = []; part_len = []; sub = []; nsub = 0 }

abbrev story : List ℕ
story = bytes "ab cab" ++ (10 ∷ bytes "aab")

replaced : replace_all (bytes "ab") (bytes "xyz") 0 story ≡ bytes "xyz cxyz" ++ (10 ∷ bytes "axyz")
unfolding replace_all is_prefix
replaced = refl

abbrev story_file : File
story_file = record { rest = story; bad = false; eof = false; error = false; closes = 0 }

story_run :
    (replace_string no_engine plenty fixed_strings old new small story_file (stream [])).0
    ≡ done (stream (bytes "xyz cxyz" ++ (10 ∷ bytes "axyz")))
unfolding replace_string whole_file read_line search scan store_all grow finish_line window
    match_pattern strstr cstr check_whole on_match write_string write_replacement
story_run = refl

story-Fresh : Fresh story_file
story-Fresh = record { some_bytes = omega arith; not_eof = refl; no_error = refl }

any_place : AnyPlace fixed_strings
any_place = record { no_word = refl; no_line = refl }

story-Text : Text story
story-Text = (refl, (refl, (refl, (refl, (refl, (refl, (refl, (refl, (refl, (refl, tt))))))))))

replace_string_fixed_example :
    EmitsFile plenty false
      (stream [])
      (replace_all (bytes "ab") (bytes "xyz") 0 story)
      (replace_string no_engine plenty fixed_strings old new small story_file (stream [])).0
replace_string_fixed_example =
    replace_string_fixed no_engine plenty fixed_strings old new refl any_place (omega arith) small
      story_file (stream []) (omega arith) story-Fresh tt (refl, (refl, tt)) story-Text

replace_string-lines_example :
    EmitsFile plenty false
      (buffered 2 (bytes "z"))
      (flat_map
        (rewritten no_engine plenty fixed_strings old new refl any_place (omega arith))
        (lines false story))
      (replace_string no_engine plenty fixed_strings old new small story_file
        (buffered 2 (bytes "z"))).0
replace_string-lines_example =
    replace_string-lines no_engine plenty fixed_strings old new refl any_place (omega arith) small
      story_file (buffered 2 (bytes "z")) (omega arith) story-Fresh (omega arith)

-- A loop that counts lines and stops at the third one.
abbrev count_lines : List ℕ → ℕ → Step ℕ ℕ
count_lines l n = next (n + 1)

whole_file-Over_example :
    Over
      (λ n. true)
      count_lines
      false
      plenty
      (read_lines false (small.buffer 0) story)
      story_file
      0
      (whole_file (λ n. true) count_lines false plenty small story_file 0)
whole_file-Over_example =
    whole_file-Over (λ n. true) count_lines false plenty small story_file 0 (omega arith) refl refl

read_line_first_example :
    Delivers false plenty story story_file (read_line false plenty true small story_file)
read_line_first_example = read_line_first false plenty small story_file (omega arith) story-Fresh

-- The state after `a`, newline and with `b` pending.
abbrev halfway : Reader
halfway = record {
  buffer = store_all zeros 0 (97 ∷ 10 ∷ 0 ∷ []);
  buffer_size = 4;
  start = 0;
  search_pos = 2;
  buffer_fill = 3;
  null_replace = 98;
}

abbrev spent : File
spent = record { rest = []; bad = false; eof = true; error = false; closes = 0 }

halfway-Ready : Ready halfway spent
unfolding store_all
halfway-Ready = record {
  positive = omega arith;
  in_fill = omega arith;
  in_buffer = omega arith;
  no_error = refl;
  full = λ e. cc;
  ended = λ e. refl;
  progress = λ e. cc;
  terminated = refl;
}

halfway-pending : pending halfway spent ≢ []
unfolding window
halfway-pending = λ e. cc

read_line_next_example :
    Delivers false plenty (pending halfway spent) spent (read_line false plenty false halfway spent)
read_line_next_example = read_line_next false plenty halfway spent halfway-Ready halfway-pending

abbrev finished : Reader
finished = record halfway { search_pos = 3; start = 2; null_replace = 0; buffer = zeros }

-- The byte `q` is left from another file.
abbrev stale : Reader
stale = record small { buffer = λ i. b'q' }

read_line_empty_example :
    let out = read_line false plenty true stale (opened [] false) in
    (out.0 ≡ success 0 1) × (window out.1.buffer 0 1 ≡ b'q' ∷ []) × (out.2.eof ≡ true)
read_line_empty_example = read_line_empty false plenty stale (omega arith)

match_fixed-Finds_example :
    Finds fixed_strings (bytes "ab") story 2 0 (match_fixed fixed_strings (bytes "ab") story 2)
match_fixed-Finds_example = match_fixed-Finds fixed_strings (bytes "ab") story 2 (omega arith)

write_string-Emits_example :
    Emits plenty
      (buffered 2 (bytes "z"))
      (bytes "long")
      (write_string plenty (buffered 2 (bytes "z")) (bytes "long"))
write_string-Emits_example =
    write_string-Emits plenty (buffered 2 (bytes "z")) (bytes "long") (omega arith)

-- `x&y` with a reference, `\&` with a hidden one, `\z` with an unknown escape.
abbrev with_ref : List ℕ
with_ref = bytes "x&y"

parse_replace-Stored_example :
    (r : Replace) × (parse_replace plenty zeros no_options with_ref ≡ parsed r)
    × Stored plenty zeros no_options with_ref (λ n. refl) refl 1 r
unfolding count_subs lex
parse_replace-Stored_example =
    parse_replace-Stored plenty zeros no_options with_ref (λ n. refl) refl 1 refl refl

abbrev escaped : List ℕ
escaped = backslash ∷ bytes "&"
