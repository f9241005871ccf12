-- ===== src/FileList/Silence.antt =====
-- An exit status of SUCCESS, and what was reported.
use rrep.Base.{ℕ, ◌≡◌, refl, ◌∙◌, Bool, true, false, ◌||◌, Option, List, Bool-cases, inl, inr}
use rrep.Options.{Options}
use rrep.Pattern.{Engine, Pattern}
use rrep.Replacement.{Replace}
use rrep.World.{Name, World, Exit, success, failure, aborted, stuck}
use rrep.ProcessFile.Reports.{Silent, process_file-Silent}
use rrep.Names.{Excludes}
use rrep.Walk.{Walk, in_cwd, seen}
use rrep.Directories.Induction.{Relation, Ending, Ends, IsTransitive}
use rrep.Directories.Steps.{Steps}
use rrep.FileList.{Argument, print_dir_skip, process_file_list}
use rrep.FileList.Steps.{unconditional, process_file_list-Ends}

-- Without a failure nothing has been reported.
abbrev SilentSoFar : Relation
SilentSoFar s f t = f ≡ false → t.world.reported ≡ s.world.reported

or_false : (f g : Bool) → (f || g) ≡ false → (f ≡ false) × (g ≡ false)
or_false false g h = (refl, h)
or_false true g h = absurd cc

abbrev AnyEnd : Ending
AnyEnd x s t = Unit

SilentSoFar-IsTransitive : IsTransitive SilentSoFar AnyEnd
SilentSoFar-IsTransitive = record {
  same = λ s e. refl;
  joined = λ s t u f g h k e. k (or_false f g e).1 ∙ h (or_false f g e).0;
  ended = λ x s t u f h k. tt;
  late = λ x s t u h k. tt;
}

-- The report of a call in the working directory.
Ends-Silent :
    (s : Walk) (x : Exit × World) (t : Walk)
    → Silent s.world x
    → t.world.reported ≡ x.1.reported
    → Ends SilentSoFar AnyEnd s (x.0, t)
Ends-Silent s (success, w) t h e = λ _. e ∙ h
Ends-Silent s (failure, w) t h e = λ f. absurd cc
Ends-Silent s (aborted, w) t h e = tt
Ends-Silent s (stuck, w) t h e = tt

module _ (E : Engine) (X : Excludes) (alloc : ℕ → Bool) (no_backups : Bool) (o : Options)
    (pattern : Pattern E) (r : Replace) (included excluded excluded_dirs : Option X.Exclude) where
  silent_steps :
      Steps E X alloc no_backups o pattern r included excluded excluded_dirs SilentSoFar AnyEnd
        SilentSoFar-IsTransitive
        (λ _. Unit)
  unfolding in_cwd
  silent_steps = record {
    error = λ e name s f. absurd cc;
    times = λ times s f. refl;
    moved = λ cwd s f. refl;
    run = λ path name a s ok.
        Ends-Silent s _ _
          (process_file-Silent E alloc (record a.os { no_backups = no_backups }) o pattern r path
            name (seen s))
          refl;
  }

  skip_silent : (name : Name) (s : Walk) → SilentSoFar s false (print_dir_skip o name s)
  unfolding print_dir_skip
  skip_silent name s f = elim (Bool-cases o.quiet) [ inl q ↦ rw q | inr q ↦ rw q ]

  succeeded :
      (s : Walk) (x : Exit × Walk)
      → Ends SilentSoFar AnyEnd s x
      → x.0 ≡ success
      → x.1.world.reported ≡ s.world.reported
  succeeded s (success, t) h e = h refl
  succeeded s (failure, t) h e = absurd cc
  succeeded s (aborted, t) h e = absurd cc
  succeeded s (stuck, t) h e = absurd cc

  -- If process_file_list ends with SUCCESS, no error was reported, for no argument and in no directory
  -- below.
  pub process_file_list-silent :
      (opens : Bool) (list : List Argument) (s : Walk)
      → (process_file_list E X alloc no_backups o pattern r included excluded excluded_dirs opens
          list s).0
        ≡ success
      → (process_file_list E X alloc no_backups o pattern r included excluded excluded_dirs opens
          list s).1.world.reported
        ≡ s.world.reported
  process_file_list-silent opens list s = succeeded s _ (
      process_file_list-Ends E X alloc no_backups o pattern r included excluded excluded_dirs
        SilentSoFar AnyEnd SilentSoFar-IsTransitive (λ _. Unit) silent_steps skip_silent opens list
        s (unconditional list))
