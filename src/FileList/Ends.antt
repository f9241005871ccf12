-- ===== src/FileList/Ends.antt =====
-- The walk over the files and directories ends.
use rrep.Base.{ℕ, ◌≤◌, ◌<◌, ◌≢◌, Bool, true, false, Option, List, length, if_both}
use rrep.Options.{Options}
use rrep.Messages.{ErrCode}
use rrep.Pattern.{Engine, Pattern}
use rrep.Pattern.Regex.{IsLawful}
use rrep.Replacement.{Replace}
use rrep.World.{Name, World, Exit, success, failure, aborted, stuck}
use rrep.ProcessFile.Ends.{InTime, process_file-InTime}
use rrep.Names.{Excludes}
use rrep.Walk.{Walk, in_cwd, rrep_error, seen}
use rrep.Directories.Induction.{Relation, Ending, Ends, IsTransitive}
use rrep.Directories.Steps.{Steps}
use rrep.FileList.{Argument, print_dir_skip, process_file_list}
use rrep.FileList.Steps.{unconditional, process_file_list-Ends}

-- A buffer of at least two bytes stays one.
abbrev pub IsLarge : Walk → Type 0
IsLarge s = 2 ≤ s.world.reader.buffer_size

abbrev StaysLarge : Relation
StaysLarge s f t = IsLarge s → IsLarge t

-- No loop has run out of rounds.
abbrev NotStuck : Ending
NotStuck x s t = IsLarge s → x ≢ stuck

StaysLarge-IsTransitive : IsTransitive StaysLarge NotStuck
StaysLarge-IsTransitive = record {
  same = λ s big. big;
  joined = λ s t u f g h k big. k (h big);
  ended = λ x s t u f h k big. k (h big);
  late = λ x s t u h k big. h big;
}

Ends-NotStuck :
    (s : Walk) (x : Exit × Walk) → Ends StaysLarge NotStuck s x → IsLarge s → x.0 ≢ stuck
Ends-NotStuck s (success, t) h big = λ e. cc
Ends-NotStuck s (failure, t) h big = λ e. cc
Ends-NotStuck s (aborted, t) h big = h big
Ends-NotStuck s (stuck, t) h big = h big

-- A call of process_file in the working directory.
InTime-Ends :
    (call : World → Exit × World) (s : Walk)
    → ((w : World) → 2 ≤ w.reader.buffer_size → InTime (call w))
    → Ends StaysLarge NotStuck s (in_cwd call s)
unfolding in_cwd
InTime-Ends call s h = ended (call (seen s)) (h (seen s))
  where
    ended :
        (x : Exit × World) → (IsLarge s → InTime x) → Ends StaysLarge NotStuck s (in_cwd (λ w. x) s)
    ended (success, w) k = λ big. (k big).large
    ended (failure, w) k = λ big. (k big).large
    ended (aborted, w) k = λ big. (k big).not_stuck
    ended (stuck, w) k = λ big. (k big).not_stuck

module _ (E : Engine) (lawful : IsLawful E) (X : Excludes) (alloc : ℕ → Bool) (no_backups : Bool)
    (o : Options) (pattern : Pattern E) (r : Replace)
    (included excluded excluded_dirs : Option X.Exclude) (pos : 0 < length pattern.string) where
  report-StaysLarge :
      (e : ErrCode) (name : Name) (s : Walk) → StaysLarge s true (rrep_error o e name s)
  report-StaysLarge e name s big =
      if_both (λ (w : World). 2 ≤ w.reader.buffer_size) o.no_messages (λ _. big) (λ _. big)

  ending_steps :
      Steps E X alloc no_backups o pattern r included excluded excluded_dirs StaysLarge NotStuck
        StaysLarge-IsTransitive
        (λ _. Unit)
  ending_steps = record {
    error = report-StaysLarge;
    times = λ times s big. big;
    moved = λ cwd s big. big;
    run = λ path name a s ok. InTime-Ends _ s (
        process_file-InTime E lawful alloc (record a.os { no_backups = no_backups }) o pattern r
          path name pos);
  }

  skip-StaysLarge : (name : Name) (s : Walk) → StaysLarge s false (print_dir_skip o name s)
  unfolding print_dir_skip
  skip-StaysLarge name s big = if_both IsLarge o.quiet (λ _. big) (λ _. big)

  -- Where regexec keeps to its interface, for a PATTERN that is not empty and a buffer of at least two
  -- bytes: whatever the arguments, the trees of directories below them and the answers of the system
  -- are, no loop in process_file_list runs out of rounds.
  pub process_file_list-InTime :
      (opens : Bool) (list : List Argument) (s : Walk)
      → IsLarge s
      → (process_file_list E X alloc no_backups o pattern r included excluded excluded_dirs opens
          list s).0
        ≢ stuck
  process_file_list-InTime opens list s = Ends-NotStuck s _ (
      process_file_list-Ends E X alloc no_backups o pattern r included excluded excluded_dirs
        StaysLarge NotStuck StaysLarge-IsTransitive (λ _. Unit) ending_steps skip-StaysLarge opens
        list s (unconditional list))
