-- ===== src/FileList.antt =====
-- process_file_list of src/rrep.c: the files and directories of the command line.
pub mod Steps
pub mod DryRun
pub mod Ends
pub mod Binary
pub mod Silence
pub mod KeptTimes
use rrep.Base.{
  ℕ, Bool, true, false, not, ◌&&◌, ◌||◌, Option, none, some, List, [], ◌∷◌, if◌then◌else◌,
}
use rrep.Options.{Options}
use rrep.Messages.{
  process_arg, process_dir as process_dir_error, save_dir, keep_times, Message, skipped,
}
use rrep.Pattern.{Engine, Pattern}
use rrep.Replacement.{Replace}
use rrep.World.{Name, World, Os, Exit, success, failure, aborted, stuck}
use rrep.Names.{Excludes, check_include_name}
use rrep.Walk.{
  Times, Walk, in_cwd, set_times, get_times, rrep_error, print, go_down, Visit, goes_on, stops,
  proceed, flag_exit, visit_of,
}
use rrep.Directories.{
  FileAnswers, DirAnswers, Directory, Saved, restore_times, keep_and_run, process_dir,
}

-- An argument with the answer of lstat: it fails, or it is a directory, a regular file or another
-- file.
pub data Argument : Type 0 where
  missing : Name → Argument
  dir_argument : Name → DirAnswers → Directory → Argument
  file_argument : Name → FileAnswers → Argument
  special : Name → Argument

-- fchdir to the directory in which the program was started.
abbrev pub go_home : Walk → Walk
go_home s = record s { cwd = [] }

-- print_dir_skip
unfoldable pub print_dir_skip : Options → Name → Walk → Walk
print_dir_skip o name s = if o.quiet then s else print (skipped name) s

module _ (E : Engine) (X : Excludes) (alloc : ℕ → Bool) (no_backups : Bool) (o : Options)
    (pattern : Pattern E) (r : Replace) (included excluded excluded_dirs : Option X.Exclude) where
  -- The times of an argument are those that lstat gave.
  unfoldable pub known_times : Name → Walk → Saved
  known_times name s = (false, if o.keep_times then some (get_times name s) else none)

  -- The way back from a directory, with the failure flag of process_dir.
  unfoldable pub return_home : Name → DirAnswers → Saved → Bool → Walk → Visit × Walk
  return_home name a (failed, saved) f s =
      if not a.chdir_back
      then (stops failure, rrep_error o process_dir_error name s)
      else restore_times E X alloc no_backups o pattern r included excluded excluded_dirs name
          a.utime (failed || f, saved) (go_home s)

  -- An argument that is a directory; `omit` says that the way back would be lost.
  unfoldable pub visit_dir_argument : Bool → Name → DirAnswers → Directory → Walk → Visit × Walk
  unfolding return_home known_times print_dir_skip
  visit_dir_argument omit name a d s =
      if omit
      then (goes_on false, print_dir_skip o name s)
      else if not (check_include_name X name none excluded_dirs)
      then (goes_on false, s)
      else if a.chdir
      then visit_of (return_home name a (known_times name s)) (
          process_dir E X alloc no_backups o pattern r included excluded excluded_dirs name d
            (go_down name s))
      else (goes_on true, rrep_error o process_dir_error name s)

  unfoldable pub visit_argument : Bool → Argument → Walk → Visit × Walk
  unfolding visit_dir_argument known_times
  visit_argument omit (missing name) s = (goes_on true, rrep_error o process_arg name s)
  visit_argument omit (dir_argument name a d) s = visit_dir_argument omit name a d s
  visit_argument omit (file_argument name a) s =
      if check_include_name X name included excluded
      then keep_and_run E X alloc no_backups o pattern r included excluded excluded_dirs none name a
          (known_times name s, s)
      else (goes_on false, s)
  visit_argument omit (special name) s = (goes_on false, s)

  -- The loop over the arguments with the failure flag.
  unfoldable pub process_arguments : Bool → List Argument → Bool → Walk → Exit × Walk
  unfolding visit_argument
  process_arguments omit [] failed s = (flag_exit failed, s)
  process_arguments omit (a ∷ list) failed s =
      proceed (process_arguments omit list) failed (visit_argument omit a s)

  -- process_file_list; `opens` says that the working directory can be opened.
  unfoldable pub process_file_list : Bool → List Argument → Walk → Exit × Walk
  unfolding process_arguments
  process_file_list opens file_list s =
      if opens
      then process_arguments false file_list false s
      else process_arguments true file_list true (rrep_error o save_dir [] s)
