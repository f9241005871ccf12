-- ===== src/CommandLine/Bits.antt =====
-- Which option bits the options of the command line set.
use mathlib.Core.Bool.{or-false, or_assoc}
use rrep.Base.{
  ℕ, ◌≡◌, refl, sym, ◌∙◌, ap, Bool, true, false, ◌||◌, Option, none, some, List, [], ◌∷◌,
}
use rrep.Options.{Options, no_options}
use rrep.Names.{Excludes}
use rrep.CommandLine.{
  Flag, fixed_strings, recursive, suffix, all, backup, binary, dry_run, regex, keep_times,
  replace_with, interactive, quiet, no_messages, word_regexp, line_regexp, Event, Args, set_pattern,
  set_replacement, set_control, parse_option, parse_options,
}

-- The bit of each option, as the header of the program and the help describe it.
abbrev pub bits_of : Flag → Options
bits_of fixed_strings = record no_options { fixed = true }
bits_of recursive = record no_options { recursive = true }
bits_of suffix = record no_options { backup = true }
bits_of all = record no_options { all = true }
bits_of backup = record no_options { backup = true }
bits_of binary = record no_options { binary = true }
bits_of dry_run = record no_options { dry = true }
bits_of keep_times = record no_options { keep_times = true }
bits_of interactive = record no_options { prompt = true }
bits_of quiet = record no_options { quiet = true }
bits_of no_messages = record no_options { no_messages = true }
bits_of word_regexp = record no_options { whole_word = true }
bits_of line_regexp = record no_options { whole_line = true }
bits_of _ = no_options

-- The bits of both.
abbrev pub union : Options → Options → Options
union a b = record {
  all = a.all || b.all;
  backup = a.backup || b.backup;
  binary = a.binary || b.binary;
  dry = a.dry || b.dry;
  fixed = a.fixed || b.fixed;
  keep_times = a.keep_times || b.keep_times;
  no_messages = a.no_messages || b.no_messages;
  prompt = a.prompt || b.prompt;
  quiet = a.quiet || b.quiet;
  recursive = a.recursive || b.recursive;
  whole_line = a.whole_line || b.whole_line;
  whole_word = a.whole_word || b.whole_word;
}

abbrev pub all_bits : List Event → Options
all_bits [] = no_options
all_bits ((flag, arg) ∷ events) = union (bits_of flag) (all_bits events)

or_true : (b : Bool) → (b || true) ≡ true
or_true true = refl
or_true false = refl

union_none : (a : Options) → union a no_options ≡ a
union_none a = simp (or-false)

union_assoc : (a b c : Options) → union (union a b) c ≡ union a (union b c)
union_assoc a b c = simp (or_assoc)

module _ (X : Excludes) where
  set_pattern_options :
      (old arg : Option (List ℕ)) (a : Args X) → (set_pattern X old arg a).options ≡ a.options
  set_pattern_options none arg a = refl
  set_pattern_options (some old) arg a = refl

  set_replacement_options :
      (old arg : Option (List ℕ)) (a : Args X) → (set_replacement X old arg a).options ≡ a.options
  set_replacement_options none arg a = refl
  set_replacement_options (some old) arg a = refl

  set_control_options :
      (arg : Option (List ℕ)) (a : Args X) → (set_control X arg a).options ≡ a.options
  set_control_options none a = refl
  set_control_options (some arg) a = refl

  parse_option_bits :
      (flag : Flag) (arg : Option (List ℕ)) (a : Args X)
      → (parse_option X flag arg a).options ≡ union a.options (bits_of flag)
  unfolding parse_option
  parse_option_bits regex arg a = simp (set_pattern_options a.pattern_string arg a, or-false)
  parse_option_bits replace_with arg a =
      simp (set_replacement_options a.replacement_string arg a, or-false)
  parse_option_bits backup arg a = simp (
    set_control_options arg (record a { options = record a.options { backup = true } }),
    or-false,
    or_true,
  )
  parse_option_bits _ arg a = simp (or-false, or_true)

  -- The options set exactly the bits that belong to them, in whatever order they come, and leave the
  -- bits that were set before.
  pub parse_options_bits :
      (events : List Event) (a : Args X)
      → (parse_options X events a).options ≡ union a.options (all_bits events)
  unfolding parse_options
  parse_options_bits [] a = sym (union_none a.options)
  parse_options_bits ((flag, arg) ∷ events) a =
      parse_options_bits events (parse_option X flag arg a)
      ∙ ap (λ o. union o (all_bits events)) (parse_option_bits flag arg a)
      ∙ union_assoc a.options (bits_of flag) (all_bits events)
