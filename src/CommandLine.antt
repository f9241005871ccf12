-- ===== src/CommandLine.antt =====
-- The options of the command line in src/rrep.c: the tables for getopt_long, the switch over the
-- options in main, and the loop over the remaining arguments.
pub mod Bits
pub mod Positional
use rrep.Base.{String, ℕ, Bool, true, false, Option, none, some, List, [], ◌∷◌, ◌++◌, if◌then◌else◌}
use rrep.Options.{Options, no_options}
use rrep.Messages.{Message, version, help}
use rrep.Messages as Messages
use rrep.Names.{Excludes}

-- What an option of the tables stands for: the values of the switch. `unknown` is any other value.
pub data Flag : Type 0 where
  extended_regexp fixed_strings recursive include exclude exclude_dir print_version suffix : Flag
  all backup binary dry_run regex print_help ignore_case keep_times replace_with interactive : Flag
  quiet no_messages word_regexp line_regexp unknown : Flag

pub data HasArg : Type 0 where
  no_argument required_argument optional_argument : HasArg

-- struct option
pub record LongOption : Type 0 where
  pub name : String
  pub has_arg : HasArg
  pub flag : Flag

abbrev pub short_options : String
short_options = "EFRrS:Vabe:hip:qswx"

abbrev long : String → HasArg → Flag → LongOption
long name has_arg flag = record { name = name; has_arg = has_arg; flag = flag }

abbrev pub long_options : List LongOption
long_options =
    long "extended-regexp" no_argument extended_regexp
    ∷ long "fixed-strings" no_argument fixed_strings
    ∷ long "recursive" no_argument recursive
    ∷ long "recursive" no_argument recursive
    ∷ long "include" required_argument include
    ∷ long "exclude" required_argument exclude
    ∷ long "exclude-dir" required_argument exclude_dir
    ∷ long "suffix" required_argument suffix
    ∷ long "version" no_argument print_version
    ∷ long "all" no_argument all
    ∷ long "backup" optional_argument backup
    ∷ long "binary" no_argument binary
    ∷ long "dry-run" no_argument dry_run
    ∷ long "regex" required_argument regex
    ∷ long "help" no_argument print_help
    ∷ long "ignore-case" no_argument ignore_case
    ∷ long "keep-times" no_argument keep_times
    ∷ long "replace-with" no_argument replace_with
    ∷ long "interactive" no_argument interactive
    ∷ long "quiet" no_argument quiet
    ∷ long "silent" no_argument quiet
    ∷ long "no-messages" no_argument no_messages
    ∷ long "word-regexp" no_argument word_regexp
    ∷ long "line-regexp" no_argument line_regexp
    ∷ []

-- What getopt_long returns, one option after another: the flag and optarg.
abbrev pub Event : Type 0
Event = Flag × Option (List ℕ)

module _ (X : Excludes) where
  -- The variables of main and of the file that the options set.
  pub record Args : Type 0 where
    pub options : Options
    pub extended : Bool
    pub icase : Bool
    pub included : Option X.Exclude
    pub excluded : Option X.Exclude
    pub excluded_dirs : Option X.Exclude
    pub suffix_string : Option (List ℕ)
    pub version_control : Option (List ℕ)
    pub pattern_string : Option (List ℕ)
    pub replacement_string : Option (List ℕ)
    pub failure_flag : Bool
    pub exit_flag : Bool
    pub printed : List Message

  -- Before the options; the suffix is that of the environment.
  abbrev pub initial : Option (List ℕ) → Args
  initial environment = record {
    options = no_options;
    extended = false;
    icase = false;
    included = none;
    excluded = none;
    excluded_dirs = none;
    suffix_string = environment;
    version_control = none;
    pattern_string = none;
    replacement_string = none;
    failure_flag = false;
    exit_flag = false;
    printed = [];
  }

  -- A pattern for a list that is made when it is needed. The flag is EXCLUDE_INCLUDE.
  abbrev pub add_pattern : Bool → Option X.Exclude → Option (List ℕ) → Option X.Exclude
  add_pattern flag list none = list
  add_pattern flag none (some arg) = some (X.add_exclude X.new_exclude arg flag)
  add_pattern flag (some list) (some arg) = some (X.add_exclude list arg flag)

  abbrev with_options : (Options → Options) → Args → Args
  with_options f a = record a { options = f a.options }

  abbrev set_pattern : Option (List ℕ) → Option (List ℕ) → Args → Args
  set_pattern (some old) arg a = record a { failure_flag = true }
  set_pattern none arg a = record a { pattern_string = arg }

  abbrev set_replacement : Option (List ℕ) → Option (List ℕ) → Args → Args
  set_replacement (some old) arg a = record a { failure_flag = true }
  set_replacement none arg a = record a { replacement_string = arg }

  abbrev set_control : Option (List ℕ) → Args → Args
  set_control none a = a
  set_control (some arg) a = record a { version_control = some arg }

  -- The switch of main.
  unfoldable pub parse_option : Flag → Option (List ℕ) → Args → Args
  parse_option extended_regexp arg a = record a { extended = true }
  parse_option fixed_strings arg a = with_options (λ o. record o { fixed = true }) a
  parse_option recursive arg a = with_options (λ o. record o { recursive = true }) a
  parse_option include arg a = record a { included = add_pattern true a.included arg }
  parse_option exclude arg a = record a { excluded = add_pattern false a.excluded arg }
  parse_option exclude_dir arg a = record a {
    excluded_dirs = add_pattern false a.excluded_dirs arg;
  }
  parse_option print_version arg a = record a {
    exit_flag = true;
    printed = a.printed ++ (version ∷ []);
  }
  parse_option suffix arg a = record (with_options (λ o. record o { backup = true }) a) {
    suffix_string = arg;
  }
  parse_option all arg a = with_options (λ o. record o { all = true }) a
  parse_option backup arg a = set_control arg (with_options (λ o. record o { backup = true }) a)
  parse_option binary arg a = with_options (λ o. record o { binary = true }) a
  parse_option dry_run arg a = with_options (λ o. record o { dry = true }) a
  parse_option regex arg a = set_pattern a.pattern_string arg a
  parse_option print_help arg a = record a { exit_flag = true; printed = a.printed ++ (help ∷ []) }
  parse_option ignore_case arg a = record a { icase = true }
  parse_option keep_times arg a = with_options (λ o. record o { keep_times = true }) a
  parse_option replace_with arg a = set_replacement a.replacement_string arg a
  parse_option interactive arg a = with_options (λ o. record o { prompt = true }) a
  parse_option quiet arg a = with_options (λ o. record o { quiet = true }) a
  parse_option no_messages arg a = with_options (λ o. record o { no_messages = true }) a
  parse_option word_regexp arg a = with_options (λ o. record o { whole_word = true }) a
  parse_option line_regexp arg a = with_options (λ o. record o { whole_line = true }) a
  parse_option unknown arg a = record a { failure_flag = true }

  -- The loop over the options.
  unfoldable pub parse_options : List Event → Args → Args
  unfolding parse_option
  parse_options [] a = a
  parse_options ((flag, arg) ∷ events) a = parse_options events (parse_option flag arg a)

-- PATTERN, REPLACEMENT and the files.
abbrev pub Strings : Type 0
Strings = Option (List ℕ) × Option (List ℕ) × List (List ℕ)

-- The loop over the remaining arguments.
unfoldable pub parse_arguments : List (List ℕ) → Strings → Strings
parse_arguments [] x = x
parse_arguments (arg ∷ args) (none, r, files) = parse_arguments args (some arg, r, files)
parse_arguments (arg ∷ args) (some p, none, files) = parse_arguments args (some p, some arg, files)
parse_arguments (arg ∷ args) (some p, some r, files) =
    parse_arguments args (some p, some r, files ++ (arg ∷ []))
