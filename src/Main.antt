-- ===== src/Main.antt =====
-- main of src/rrep.c, from the options to the exit status.
pub mod Steps
pub mod DryRun
pub mod Ends
pub mod Binary
pub mod Copy
pub mod Regex
pub mod Same
pub mod Silence
pub mod KeptTimes
use rrep.Base.{
  ℕ, ◌+◌, ◌*◌, Bool, true, false, not, ◌&&◌, Option, none, some, List, [], ◌∷◌, ◌++◌, bytes,
  if◌then◌else◌, length,
}
use mathlib.Core.List.{map}
use rrep.Options.{Options}
use rrep.Messages.{
  ErrCode, Message, invocation, simulation, Report, coded, regex, alloc_suffix, alloc_buffer,
  alloc_filelist, realloc_filebuffer,
}
use rrep.Bufferio.{File, Reader, opened, init_buffer_size}
use rrep.Bufferio.Memory.{Block}
use rrep.Heap.{Heap}
use rrep.Pattern.{Engine, Pattern}
use rrep.Pattern.Parse
use rrep.Pattern.Parse.{parse_pattern}
use rrep.Replacement
use rrep.Replacement.{Replace, parse_replace}
use rrep.EachLine.{Ended, done, returned, failed, starved}
use rrep.Replace.{
  Sink, stream, written, LineEnd, flushed, write_failed, regex_failed, out_of_rounds,
  replace_string,
}
use rrep.World.{Name, World, Exit, success, failure, aborted, stuck, same_name}
use rrep.World
use rrep.Names.{Excludes}
use rrep.Walk.{Walk, rrep_error, print}
use rrep.FileList.{Argument, process_file_list}
use rrep.CommandLine.{Event, Args, initial, parse_options, Strings, parse_arguments}

-- What the program is given: the options as getopt_long returns them, the remaining arguments, the
-- variable SIMPLE_BACKUP_SUFFIX, standard input, the answers of lstat, and those of xget_version,
-- which tells the method without backups from the others or ends the program.
pub record Input : Type 0 where
  pub events : List Event
  pub arguments : List Name
  pub environment : Option Name
  pub stdin : List ℕ
  pub stdin_bad : Bool
  pub lstat : Name → Argument
  pub opens : Bool
  pub xget_version : Option Name → Option Bool

-- How main ends. `undefined` is a write or a free that C does not define.
pub data MainExit : Type 0 where
  exits : Exit → MainExit
  undefined : MainExit

-- The exit status, the state, and what went to standard output by replace_string.
pub record Outcome : Type 0 where
  pub exit : MainExit
  pub state : Walk
  pub stdout : List ℕ

abbrev pub ends : Exit → Walk → Outcome
ends x s = record { exit = exits x; state = s; stdout = [] }

abbrev fails : Options → ErrCode → Name → Walk → Outcome
fails o e name s = ends failure (rrep_error o e name s)

-- print_dry
unfoldable pub print_dry : Options → Walk → Walk
print_dry o s = if o.dry && not o.quiet then print simulation s else s

abbrev pub print_regerror : ℕ → Walk → Walk
print_regerror e s = record s { world = World.print_regerror e s.world }

-- The report of parse_pattern.
abbrev pub report : Options → Report → Walk → Walk
report o (coded e name) s = rrep_error o e name s
report o (regex e) s = print_regerror e s

-- file_counter == 0 || (file_counter == 1 && !strcmp (file_list[0], "-"))
unfoldable pub from_stdin : List Name → Bool
unfolding same_name
from_stdin [] = true
from_stdin (name ∷ []) = same_name name (bytes "-")
from_stdin (name ∷ other ∷ names) = false

module _ (E : Engine) (X : Excludes) (alloc : ℕ → Bool) (regex_size : ℕ) (garbage : Block)
    (heap : Heap) (input : Input) where
  -- The result of replace_string from standard input to standard output.
  unfoldable pub after_stdin :
      Options → Walk → Ended Sink (Sink × LineEnd) × Reader × File → Outcome
  after_stdin o s (done sink, reader, f) = record {
    exit = exits success;
    state = s;
    stdout = written sink;
  }
  after_stdin o s (failed sink e, reader, f) = record {
    exit = exits failure;
    state = rrep_error o e (bytes "stdin") s;
    stdout = written sink;
  }
  after_stdin o s (returned (sink, regex_failed e), reader, f) = record {
    exit = exits failure;
    state = print_regerror e s;
    stdout = written sink;
  }
  after_stdin o s (returned (sink, write_failed), reader, f) = record {
    exit = exits failure;
    state = rrep_error o realloc_filebuffer (bytes "stdin") s;
    stdout = written sink;
  }
  after_stdin o s (returned (sink, flushed), reader, f) = record {
    exit = exits stuck;
    state = s;
    stdout = written sink;
  }
  after_stdin o s (returned (sink, out_of_rounds), reader, f) = record {
    exit = exits stuck;
    state = s;
    stdout = written sink;
  }
  after_stdin o s (starved, reader, f) = record { exit = exits stuck; state = s; stdout = [] }

  module _ (a : Args X) where
    -- The work on standard input or on the files.
    unfoldable pub process : Bool → List Name → Pattern E → Replace → Walk → Outcome
    unfolding after_stdin print_dry from_stdin
    process no_backups file_list pattern r s =
        if from_stdin file_list
        then after_stdin a.options s (
            replace_string E alloc a.options pattern r s.world.reader
              (opened input.stdin input.stdin_bad) (stream []))
        else let (x, t) =
            process_file_list E X alloc no_backups a.options pattern r a.included a.excluded
              a.excluded_dirs input.opens (map input.lstat file_list) (print_dry a.options s) in
          ends x t

    -- What follows parse_replace.
    unfoldable pub after_replacement :
        Bool → List Name → Pattern E → Walk → Replacement.Parsed → Outcome
    unfolding process
    after_replacement no_backups file_list pattern s (Replacement.parsed r) =
        process no_backups file_list pattern r s
    after_replacement no_backups file_list pattern s (Replacement.rejected e text) =
        fails a.options e text s
    after_replacement no_backups file_list pattern s Replacement.overflow = record {
      exit = undefined;
      state = s;
      stdout = [];
    }

    -- What follows parse_pattern.
    unfoldable pub after_pattern : Bool → List Name → List ℕ → Walk → Parse.Outcome E → Outcome
    unfolding after_replacement
    after_pattern no_backups file_list replacement_string s none = record {
      exit = undefined;
      state = s;
      stdout = [];
    }
    after_pattern no_backups file_list replacement_string s
          (some (Parse.parsed pattern, fields, h)) =
        after_replacement no_backups file_list pattern s
          (parse_replace alloc garbage a.options replacement_string)
    after_pattern no_backups file_list replacement_string s (some (Parse.rejected e, fields, h)) =
        ends failure (report a.options e s)

    -- The initial memory of the buffer.
    abbrev pub new_buffer : Walk → Walk
    new_buffer s = record s {
      world = record s.world {
        reader = record s.world.reader { buffer = garbage; buffer_size = init_buffer_size };
      };
    }

    unfoldable pub with_strings : Bool → Strings → Walk → Outcome
    unfolding after_pattern
    with_strings no_backups (some p, some r, file_list) s =
        if alloc init_buffer_size
        then after_pattern no_backups file_list r (new_buffer s)
            (parse_pattern E alloc regex_size a.options p a.extended a.icase heap)
        else fails a.options alloc_buffer [] s
    with_strings no_backups (some p, none, file_list) s = ends failure (print invocation s)
    with_strings no_backups (none, r, file_list) s = ends failure (print invocation s)

    -- The memory for the list of files; a pointer takes 8 bytes.
    unfoldable pub with_files : Bool → Walk → Outcome
    unfolding with_strings parse_arguments
    with_files no_backups s =
        if alloc (length input.arguments * 8)
        then with_strings no_backups
            (parse_arguments input.arguments (a.pattern_string, a.replacement_string, [])) s
        else fails a.options alloc_filelist [] s

    -- The backup method.
    unfoldable pub with_method : Option Bool → Walk → Outcome
    unfolding with_files
    with_method none s = ends aborted s
    with_method (some no_backups) s = with_files no_backups s

    unfoldable pub with_backups : Walk → Outcome
    unfolding with_method with_files
    with_backups s =
        if a.options.backup
        then with_method (input.xget_version a.version_control) s
        else with_files true s

    -- The copy of the suffix.
    unfoldable pub with_suffix : Option (List ℕ) → Walk → Outcome
    unfolding with_backups
    with_suffix none s = with_backups s
    with_suffix (some suffix) s =
        if alloc (length suffix + 1) then with_backups s else fails a.options alloc_suffix [] s

    -- What follows the loop over the options.
    unfoldable pub after_options : Walk → Outcome
    unfolding with_suffix
    after_options s =
        if a.failure_flag
        then ends failure (print invocation s)
        else if a.exit_flag
        then ends success s
        else with_suffix a.suffix_string s

  -- The messages of the options are printed while they are parsed.
  abbrev pub option_messages : Args X → Walk → Walk
  option_messages a s = record s {
    world = record s.world { printed = s.world.printed ++ a.printed };
  }

  unfoldable pub main : Walk → Outcome
  unfolding after_options parse_options
  main s =
      let a = parse_options X input.events (initial X input.environment) in
      after_options a (option_messages a s)
