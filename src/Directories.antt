-- ===== src/Directories.antt =====
-- process_dir of src/rrep.c: the walk over a directory and, with OPT_RECURSIVE, those below it.
pub mod Induction
pub mod Steps
pub mod Unmoved
pub mod KeptTimes
use rrep.Base.{
  ℕ, ◌+◌, ◌-◌, Bool, true, false, not, ◌&&◌, ◌||◌, Option, none, some, List, [], ◌∷◌, ◌++◌, ◌==◌,
  if◌then◌else◌, length, bytes,
}
use rrep.Options.{Options}
use rrep.Messages.{process_dir as process_dir_error, alloc_pathbuffer, open_dir, keep_times}
use rrep.Pattern.{Engine, Pattern}
use rrep.Replacement.{Replace}
use rrep.World.{Name, World, Os, Exit, success, failure, aborted, stuck, same_name}
use rrep.ProcessFile.{process_file}
use rrep.Names.{Excludes, check_name}
use rrep.Walk.{
  Times, Walk, with_slash, in_cwd, set_times, set_own_times, touch, get_times, rrep_error, go_down,
  go_up, Visit, goes_on, stops, proceed, flag_exit, visit_of,
}

-- What the system answers for a regular file: whether lstat and utime succeed, what it answers to
-- process_file, which times the file has after that call, and what that call makes of the times of
-- the others: with OPT_BACKUP, the backup and its directory change too.
pub record FileAnswers : Type 0 where
  pub os : Os
  pub lstat : Bool
  pub utime : Bool
  pub touched : Times
  pub others : Name → Times → Times

-- The same for a directory; `chdir` is the way down, `chdir_back` the way up.
pub record DirAnswers : Type 0 where
  pub lstat : Bool
  pub chdir : Bool
  pub chdir_back : Bool
  pub utime : Bool

-- A directory as readdir lists it, or one that opendir cannot open. With `reads`, readdir reads from
-- the directory, which has those times from then on.
mutual
  pub data Directory : Type 0 where
    unreadable : Directory
    readable : Entries → Directory

  pub data Entries : Type 0 where
    end : Entries
    reads : Times → Entries → Entries
    regular : Name → FileAnswers → Entries → Entries
    directory : Name → DirAnswers → Directory → Entries → Entries
    other : Name → Entries → Entries

-- The path of a directory entry.
unfoldable pub next_path : Name → Name → Name
unfolding with_slash
next_path relative_path name = with_slash relative_path ++ name

-- What is known before a file or a directory is worked on: the failure flag, and the saved times.
abbrev pub Saved : Type 0
Saved = Bool × Option Times

-- The way into a directory: it is left out or has failed, or it is entered.
pub data Descent : Type 0 where
  no_descent : Visit → Descent
  descent : Saved → Descent

module _ (E : Engine) (X : Excludes) (alloc : ℕ → Bool) (no_backups : Bool) (o : Options)
    (pattern : Pattern E) (r : Replace) (included excluded excluded_dirs : Option X.Exclude) where
  -- The times are saved with OPT_KEEP_TIMES.
  unfoldable pub save_times : Name → Bool → Walk → Saved × Walk
  save_times name lstat s =
      if not o.keep_times
      then ((false, none), s)
      else if lstat
      then ((false, some (get_times name s)), s)
      else ((true, none), rrep_error o keep_times name s)

  -- utime, where times were saved.
  unfoldable pub restore_times : Name → Bool → Saved → Walk → Visit × Walk
  unfolding set_times
  restore_times name utime (failed, none) s = (goes_on failed, s)
  restore_times name utime (failed, some t) s =
      if utime
      then (goes_on failed, set_times name t s)
      else (goes_on true, rrep_error o keep_times name s)

  -- process_file in the working directory. The backup method is the same for all files.
  unfoldable pub run_file : Option Name → Name → FileAnswers → Walk → Exit × Walk
  unfolding in_cwd set_times touch
  run_file relative_path name a s =
      let (x, s') =
        in_cwd
          (process_file E alloc (record a.os { no_backups = no_backups }) o pattern r relative_path
            name)
          s in
      (x, set_times name a.touched (touch a.others s'))

  -- process_file between the saving and the restoring of the times.
  unfoldable pub keep_and_run : Option Name → Name → FileAnswers → Saved × Walk → Visit × Walk
  unfolding run_file restore_times
  keep_and_run relative_path name a ((failed, saved), s) =
      visit_of (λ f s'. restore_times name a.utime (failed || f, saved) s')
        (run_file relative_path name a s)

  -- The branch of the loop for a regular file.
  unfoldable pub visit_file : Name → Name → FileAnswers → Walk → Visit × Walk
  unfolding keep_and_run save_times
  visit_file relative_path name a s =
      if check_name X o (some name) included excluded
      then keep_and_run (some relative_path) name a (save_times name a.lstat s)
      else (goes_on false, s)

  -- Whether the loop goes into a directory.
  unfoldable pub goes_into : Name → Bool
  unfolding same_name check_name
  goes_into name =
      o.recursive
      && not (same_name name (bytes "."))
      && not (same_name name (bytes ".."))
      && check_name X o (some name) none excluded_dirs

  -- chdir into a directory, and the memory for its path.
  unfoldable pub enter : Name → Name → DirAnswers → Saved × Walk → Descent × Walk
  enter relative_path name a (saved, s) =
      if not a.chdir
      then (no_descent (goes_on true), rrep_error o process_dir_error name s)
      else if not (alloc (length relative_path + length name + 2))
      then (no_descent (stops failure), rrep_error o alloc_pathbuffer name (go_down name s))
      else (descent saved, go_down name s)

  -- The branch of the loop for a directory, up to the recursive call.
  unfoldable pub before_dir : Name → Name → DirAnswers → Walk → Descent × Walk
  unfolding goes_into enter save_times
  before_dir relative_path name a s =
      if goes_into name
      then enter relative_path name a (save_times name a.lstat s)
      else (no_descent (goes_on false), s)

  -- The way back, with the failure flag of the recursive call.
  unfoldable pub leave : Name → DirAnswers → Saved → Bool → Walk → Visit × Walk
  unfolding restore_times
  leave name a (failed, saved) f s =
      if not a.chdir_back
      then (stops failure, rrep_error o process_dir_error name s)
      else restore_times name a.utime (failed || f, saved) (go_up s)

  -- What follows the way into a directory; the function makes the recursive call.
  unfoldable pub around_dir :
      (Walk → Exit × Walk) → Name → DirAnswers → Descent × Walk → Visit × Walk
  unfolding leave
  around_dir walk name a (no_descent v, s) = (v, s)
  around_dir walk name a (descent saved, s) = visit_of (leave name a saved) (walk s)

  -- process_dir, and its loop with the failure flag.
  unfoldable mutual
    unfolding visit_file before_dir around_dir set_own_times

    pub process_dir : Name → Directory → Walk → Exit × Walk
    process_dir path unreadable s = (failure, rrep_error o open_dir [] s)
    process_dir path (readable es) s = process_entries path es false s

    pub process_entries : Name → Entries → Bool → Walk → Exit × Walk
    process_entries path end failed s = (flag_exit failed, s)
    process_entries path (reads t es) failed s = process_entries path es failed (set_own_times t s)
    process_entries path (other name es) failed s = process_entries path es failed s
    process_entries path (regular name a es) failed s =
        proceed (process_entries path es) failed (visit_file path name a s)
    process_entries path (directory name a d es) failed s =
        proceed (process_entries path es) failed
          (around_dir (process_dir (next_path path name) d) name a (before_dir path name a s))
