-- ===== src/Messages/Texts.antt =====
-- The texts of src/messages.c, untranslated. The name of the program, the description of the current
-- error, the constants of config.h and the answer of regerror are parameters.
use rrep.Base.{
  String, ℕ, Option, none, some, List, [], ◌++◌, bytes, Bool, true, false, if◌then◌else◌,
}
use rrep.Messages.{
  ErrCode, process_arg, process_dir, pattern, unknown_escape, save_dir, alloc_suffix, alloc_buffer,
  alloc_filebuffer, alloc_filelist, alloc_pathbuffer, alloc_pattern, alloc_replacement,
  alloc_backup, realloc_buffer, realloc_filebuffer, memory, open_read, open_write, open_dir,
  read_file, read_temp, write_backup, overwrite, keep_times, Message, listed, asked, confirmed,
  skipped, simulation, version, help, invocation,
}

-- The strings that the messages are put together from.
pub record Strings : Type 0 where
  pub program_name : List ℕ
  pub package_string : List ℕ
  pub authors : List ℕ
  pub package_bugreport : List ℕ
  pub exit_failure : List ℕ
  pub exit_success : List ℕ

-- The cases of the switch in rrep_error: what the format of each code says behind its arguments,
-- whether file_name is an argument, and whether perror follows.
unfoldable pub phrase : ErrCode → String
phrase process_arg = "could not process argument: "
phrase process_dir = "could not process directory: "
phrase pattern = "PATTERN must have at least one character\n"
phrase unknown_escape = "unknown escape sequence in REPLACEMENT\n"
phrase save_dir = "could not save current working directory: "
phrase alloc_suffix = "could not allocate memory for suffix: "
phrase alloc_buffer = "could not allocate memory for buffer: "
phrase alloc_filebuffer = "could not allocate memory for file_buffer: "
phrase alloc_filelist = "could not allocate memory for file_list: "
phrase alloc_pathbuffer = "could not allocate memory for next_path: "
phrase alloc_pattern = "could not allocate memory for pattern: "
phrase alloc_replacement = "could not allocate memory for replacement: "
phrase alloc_backup = "could not allocate memory for backup string: "
phrase realloc_buffer = "could not reallocate memory for buffer: "
phrase realloc_filebuffer = "could not reallocate memory for file_buffer: "
phrase memory = "not enough memory to process file: "
phrase open_read = "could not open file for reading: "
phrase open_write = "could not open file for writing: "
phrase open_dir = "could not open directory: "
phrase read_file = "could not read file: "
phrase read_temp = "could not read temporary file: "
phrase write_backup = "could not write backup file: "
phrase overwrite = "could not overwrite file: "
phrase keep_times = "could keep file times: "

unfoldable pub names_file : ErrCode → Bool
names_file pattern = false
names_file save_dir = false
names_file alloc_suffix = false
names_file alloc_buffer = false
names_file alloc_filelist = false
names_file alloc_pattern = false
names_file alloc_replacement = false
names_file open_dir = false
names_file _ = true

unfoldable pub adds_error : ErrCode → Bool
adds_error pattern = false
adds_error unknown_escape = false
adds_error _ = true

-- perror (NULL): the description of the current error on a line.
unfoldable pub perror : List ℕ → List ℕ
perror strerror = strerror ++ bytes "\n"

module _ (s : Strings) where
  unfoldable pub print_version : List ℕ
  print_version =
      s.package_string
      ++ bytes "\n\nCopyright (C) 2011, 2013, 2019, 2022 "
      ++ s.authors
      ++ bytes "\nLicense GPLv3+: GNU GPL version 3 or later <http://gnu.org/licenses/gpl.html>\n"
      ++ bytes "This is free software: you are free to change and redistribute it.\n"
      ++ bytes "There is NO WARRANTY, to the extent permitted by law.\n\n"

  unfoldable pub print_usage : List ℕ
  print_usage =
      bytes "Usage: " ++ s.program_name ++ bytes " [OPTION]... PATTERN REPLACEMENT [FILE]...\n"

  -- What the help says of PATTERN and REPLACEMENT.
  unfoldable pub help_introduction : List ℕ
  help_introduction =
      bytes "Replace PATTERN by REPLACEMENT in each FILE or standard input.\n"
      ++ bytes "PATTERN is, by default, a basic regular expression (BRE).  REPLACEMENT may\n"
      ++ bytes "contain the special character & to refer to that portion of the pattern space\n"
      ++ bytes "which matched, and the special escapes \\1 through \\9 to refer to the\n"
      ++ bytes "corresponding matching sub-expressions in PATTERN.\n"
      ++ bytes "Example: "
      ++ s.program_name
      ++ bytes " 'hello world' 'Hello, World!' menu.h main.c\n\n"

  -- What the help says of the options.
  unfoldable pub help_options : List ℕ
  help_options =
      bytes "Options:\n"
      ++ bytes "  -E, --extended-regexp          PATTERN is an extended regular expression (ERE)\n"
      ++ bytes "  -F, --fixed-strings            PATTERN and REPLACEMENT are fixed strings\n"
      ++ bytes "  -R, -r, --recursive            process directories recursively\n"
      ++ bytes "      --include=FILE_PATTERN     process only files that match FILE_PATTERN\n"
      ++ bytes "      --exclude=FILE_PATTERN     files that match FILE_PATTERN will be skipped\n"
      ++ bytes "      --exclude-dir=PATTERN      directories that match PATTERN will be skipped\n"
      ++ bytes "  -S, --suffix=SUFFIX            override default backup suffix\n"
      ++ bytes "  -V, --version                  print version information and exit\n"
      ++ bytes "  -a, --all                      do not ignore files starting with .\n"
      ++ bytes "  -b                             backup before overwriting files\n"
      ++ bytes "      --backup[=CONTROL]         like -b but accepts a version control argument\n"
      ++ bytes "      --binary                   do not ignore binary files\n"
      ++ bytes "      --dry-run                  simulation mode\n"
      ++ bytes "  -e, --regex=PATTERN            use PATTERN for matching\n"
      ++ bytes "  -h, --help                     display this help and exit\n"
      ++ bytes "  -i, --ignore-case              ignore case distinctions\n"
      ++ bytes "      --keep-times               keep access and modification times\n"
      ++ bytes "  -p, --replace-with=REPLACEMENT use REPLACEMENT for substitution\n"
      ++ bytes "      --interactive              prompt before modifying a file\n"
      ++ bytes "  -q, --quiet, --silent          suppress all normal messages\n"
      ++ bytes "  -s, --no-messages              suppress error messages\n"
      ++ bytes "  -w, --word-regexp              force PATTERN to match only whole words\n"
      ++ bytes "  -x, --line-regexp              force PATTERN to match only whole lines\n\n"

  -- What the help says of the files, the backups and bugs.
  unfoldable pub help_end : List ℕ
  help_end =
      bytes "With no FILE, or when FILE is -, read standard input and write to standard\n"
      ++ bytes "output.  Exit status is "
      ++ s.exit_failure
      ++ bytes " if any error occurs, "
      ++ s.exit_success
      ++ bytes " otherwise.\n\n"
      ++ bytes "The backup suffix is ~, unless set with --suffix or SIMPLE_BACKUP_SUFFIX.\n"
      ++ bytes "The version control method may be selected via the --backup option or through\n"
      ++ bytes "the VERSION_CONTROL environment variable.  Here are the values:\n\n"
      ++ bytes "  none, off       never make backups (even if --backup is given)\n"
      ++ bytes "  numbered, t     make numbered backups\n"
      ++ bytes "  existing, nil   numbered if numbered backups exist, simple otherwise\n"
      ++ bytes "  simple, never   always make simple backups\n\n"
      ++ bytes "Report bugs to: "
      ++ s.package_bugreport
      ++ bytes "\n"

  unfoldable pub print_help : List ℕ
  unfolding print_usage help_introduction help_options help_end
  print_help = print_usage ++ help_introduction ++ help_options ++ help_end

  unfoldable pub print_invocation : List ℕ
  unfolding print_usage
  print_invocation =
      print_usage ++ bytes "Try `" ++ s.program_name ++ bytes " --help' for more information.\n"

  unfoldable pub message_text : Message → List ℕ
  unfolding print_version print_help print_invocation
  message_text (listed name) = name ++ bytes "\n"
  message_text (asked name) =
      bytes "Pattern found in " ++ name ++ bytes ".  Replace pattern [y/n]? "
  message_text (confirmed name) = name ++ bytes ": pattern replaced\n"
  message_text (skipped name) =
      s.program_name ++ bytes ": " ++ name ++ bytes ": omitting directory\n"
  message_text simulation =
      bytes "Simulation mode: no files are modified.\n"
      ++ bytes "PATTERN found in the following files:\n"
  message_text version = print_version
  message_text help = print_help
  message_text invocation = print_invocation

  -- rrep_error where messages are wanted; `strerror` is the description of the current error.
  unfoldable pub error_text : ErrCode → List ℕ → List ℕ → List ℕ
  unfolding phrase names_file adds_error perror
  error_text code file_name strerror =
      s.program_name
      ++ bytes ": "
      ++ (if names_file code then file_name ++ bytes ": " else [])
      ++ bytes (phrase code)
      ++ (if adds_error code then perror strerror else [])

  -- print_regerror writes the text of regerror, or nothing if there is no memory for it.
  unfoldable pub regerror_text : Option (List ℕ) → List ℕ
  regerror_text none = []
  regerror_text (some message) = s.program_name ++ bytes ": " ++ message ++ bytes "\n"
