-- ===== src/Tests/Program.antt =====
-- Runs of the command line and of main.
use rrep.Base.{◌≡◌, refl, true, false, none, some, List, [], ◌∷◌, bytes, arith}
use rrep.Options.{no_options}
use rrep.CommandLine.{
  Event, fixed_strings, keep_times, dry_run, recursive, backup, word_regexp, suffix, initial,
  parse_options, parse_arguments,
}
use rrep.CommandLine.Bits.{union, all_bits, parse_options_bits}
use rrep.CommandLine.Positional.{parse_arguments_lem}
use rrep.FileList.{file_argument}
use rrep.World.{success, has_nul}
use rrep.Main.{Input, exits, main}
use rrep.Main.Silence.{main-silent}
use rrep.Main.KeptTimes.{TimesKept, main-TimesKept}
use rrep.Main.DryRun.{main_dry}
use rrep.Main.Binary.{main_binary}
use rrep.FileList.Binary.{IsBinary}
use rrep.Walk.{Walk}
use rrep.Main.Regex.{Substitutes, substitution, main_regex}
use rrep.Main.Same.{CopiesOrFails, main_same}
use rrep.Bufferio.Lines.{lines}
use rrep.Replace.Expand.{substituted}
use rrep.Replacement.{count_subs}
use rrep.Replacement.Lexing.{lex}
use rrep.Main.Copy.{Copies, filter, main_fixed}
use rrep.Replace.Global.{replace_all}
use rrep.Tests.{plenty, zeros, no_engine, story, story-Text}
use rrep.Tests.Files.{notes}
use rrep.Tests.Memory.{some_heap}
use rrep.Tests.Regex.{maybe_a, maybe_char, maybe_char-IsLawful}
use rrep.Tests.Walking.{one_name, file_answers, walk}

abbrev two_options : List Event
two_options = (suffix, some (bytes ".bak")) ∷ (recursive, none) ∷ []

parse_options_bits_example :
    (parse_options one_name two_options (initial one_name none)).options
    ≡ union no_options (all_bits two_options)
parse_options_bits_example = parse_options_bits one_name two_options (initial one_name none)

parse_arguments_lem_example :
    parse_arguments (bytes "a" ∷ bytes "b" ∷ bytes "c" ∷ []) (none, some (bytes "r"), [])
    ≡ (some (bytes "a"), some (bytes "r"), bytes "b" ∷ bytes "c" ∷ [])
parse_arguments_lem_example =
    parse_arguments_lem (bytes "a" ∷ bytes "b" ∷ bytes "c" ∷ []) none (some (bytes "r"))

-- rrep --dry-run -F ab xyz n
abbrev dry_input : Input
dry_input = record {
  events = (dry_run, none) ∷ (fixed_strings, none) ∷ [];
  arguments = bytes "ab" ∷ bytes "xyz" ∷ notes ∷ [];
  environment = none;
  stdin = [];
  stdin_bad = false;
  lstat = λ name. file_argument name file_answers;
  opens = true;
  xget_version = λ control. some true;
}

main_dry_example :
    (main no_engine one_name plenty 64 zeros some_heap dry_input walk).state.world.files notes
    ≡ some story
main_dry_example =
    main_dry no_engine one_name plenty 64 zeros some_heap dry_input walk notes refl refl

main_fixed_example : Copies (replace_all (bytes "ab") (bytes "xyz") 0 story) (
    main no_engine one_name plenty 64 zeros some_heap
      (filter (bytes "ab") (bytes "xyz") story dry_input)
      walk)
main_fixed_example =
    main_fixed no_engine one_name plenty 64 zeros some_heap dry_input (λ n. refl) (bytes "ab")
      (bytes "xyz") story walk (omega arith) (refl, (refl, tt)) (omega arith) story-Text

-- rrep -F --keep-times ab xyz n
abbrev keep_input : Input
keep_input = record dry_input { events = (fixed_strings, none) ∷ (keep_times, none) ∷ [] }

main-TimesKept_example :
    TimesKept walk
      (main no_engine one_name plenty 64 zeros some_heap keep_input walk).exit
      (main no_engine one_name plenty 64 zeros some_heap keep_input walk).state
main-TimesKept_example =
    main-TimesKept no_engine one_name plenty 64 zeros some_heap keep_input (λ n. refl)
      (λ name. (refl, λ b path t. refl)) refl walk refl refl

copied :
    (main no_engine one_name plenty 64 zeros some_heap
      (filter (bytes "ab") (bytes "xyz") story dry_input)
      walk).exit
    ≡ exits success
copied =
    (main_fixed no_engine one_name plenty 64 zeros some_heap dry_input (λ n. refl) (bytes "ab")
      (bytes "xyz") story walk (omega arith) (refl, (refl, tt)) (omega arith) story-Text).0

main-silent_example :
    (main no_engine one_name plenty 64 zeros some_heap
      (filter (bytes "ab") (bytes "xyz") story dry_input)
      walk).state.world.reported
    ≡ []
main-silent_example =
    main-silent no_engine one_name plenty 64 zeros some_heap
      (filter (bytes "ab") (bytes "xyz") story dry_input) walk copied

-- rrep --backup --word-regexp 'a?' x n
abbrev regex_input : Input
regex_input = record dry_input {
  events = (backup, none) ∷ (word_regexp, none) ∷ [];
  arguments = bytes "a?" ∷ bytes "x" ∷ notes ∷ [];
}

-- A directory whose files hold a NUL.
abbrev binary_walk : Walk
binary_walk = record walk {
  world = record walk.world { files = λ name. some (b'a' ∷ 0 ∷ b'a' ∷ []) };
}

notes-IsBinary : IsBinary (binary_walk.world.files notes)
unfolding has_nul
notes-IsBinary = refl

-- rrep --word-regexp 'a?' x n
main_binary_example :
    (main maybe_char one_name plenty 64 zeros some_heap
        (record regex_input { events = (word_regexp, none) ∷ [] })
        binary_walk).state.world.files
      notes
    ≡ some (b'a' ∷ 0 ∷ b'a' ∷ [])
main_binary_example =
    main_binary maybe_char maybe_char-IsLawful one_name plenty 64 zeros some_heap
      (record regex_input { events = (word_regexp, none) ∷ [] }) binary_walk notes refl refl
      notes-IsBinary

-- rrep 'a?' '<&>' and rrep 'a?' '&', from standard input
main_regex_example :
    Substitutes maybe_char maybe_a
      (substituted plenty zeros (bytes "<&>"))
      (lines false (bytes "bac"))
      (main maybe_char one_name plenty 64 zeros some_heap
        (substitution (bytes "a?") (bytes "<&>") (bytes "bac") dry_input)
        walk)
unfolding count_subs lex
main_regex_example =
    main_regex maybe_char maybe_char-IsLawful one_name plenty 64 zeros some_heap dry_input
      (λ n. refl) (bytes "a?") (bytes "<&>") (bytes "bac") b'a' 1 walk (omega arith) (λ e. cc) refl
      refl tt

main_same_example : CopiesOrFails maybe_char maybe_a (bytes "bac") (
    main maybe_char one_name plenty 64 zeros some_heap
      (substitution (bytes "a?") (bytes "&") (bytes "bac") dry_input)
      walk)
main_same_example =
    main_same maybe_char maybe_char-IsLawful one_name plenty 64 zeros some_heap dry_input
      (λ n. refl) (bytes "a?") (bytes "bac") b'a' walk (omega arith) (λ e. cc) refl
