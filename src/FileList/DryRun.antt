-- ===== src/FileList/DryRun.antt =====
-- A dry run of process_file_list.
use rrep.Base.{ℕ, ◌≡◌, refl, ◌∙◌, ap, Bool, true, false, Option, List}
use rrep.Options.{Options}
use rrep.Pattern.{Engine, Pattern}
use rrep.Replacement.{Replace}
use rrep.World.{Name, Exit, success, failure, aborted, stuck}
use rrep.ProcessFile.Effects.{process_file_dry, rrep_error_files}
use rrep.Names.{Excludes}
use rrep.Walk.{Walk}
use rrep.Walk.View.{in_cwd_same}
use rrep.Directories.Induction.{Relation, Ending, Ends, IsTransitive}
use rrep.Directories.Steps.{Steps}
use rrep.FileList.{Argument, print_dir_skip, process_file_list}
use rrep.FileList.Steps.{unconditional, process_file_list-Ends}

-- No file has changed.
abbrev pub SameFiles : Relation
SameFiles s f t = (path : Name) → t.world.files path ≡ s.world.files path

abbrev SameAtEnd : Ending
SameAtEnd x s t = SameFiles s true t

SameFiles-IsTransitive : IsTransitive SameFiles SameAtEnd
SameFiles-IsTransitive = record {
  same = λ s path. refl;
  joined = λ s t u f g h k path. k path ∙ h path;
  ended = λ x s t u f h k path. k path ∙ h path;
  late = λ x s t u h k path. k path ∙ h path;
}

-- However a call ends.
SameFiles-Ends :
    (s : Walk) (x : Exit × Walk)
    → ((path : Name) → x.1.world.files path ≡ s.world.files path)
    → Ends SameFiles SameAtEnd s x
SameFiles-Ends s (success, t) h = h
SameFiles-Ends s (failure, t) h = h
SameFiles-Ends s (aborted, t) h = h
SameFiles-Ends s (stuck, t) h = h

Ends-SameFiles : (s : Walk) (x : Exit × Walk) → Ends SameFiles SameAtEnd s x → SameFiles s true x.1
Ends-SameFiles s (success, t) h = h
Ends-SameFiles s (failure, t) h = h
Ends-SameFiles s (aborted, t) h = h
Ends-SameFiles s (stuck, t) h = h

module _ (E : Engine) (X : Excludes) (alloc : ℕ → Bool) (no_backups : Bool) (o : Options)
    (pattern : Pattern E) (r : Replace) (included excluded excluded_dirs : Option X.Exclude) where
  module _ (dry : o.dry ≡ true) (loud : o.quiet ≡ false) where
    dry_steps :
        Steps E X alloc no_backups o pattern r included excluded excluded_dirs SameFiles SameAtEnd
          SameFiles-IsTransitive
          (λ _. Unit)
    dry_steps = record {
      error = λ e name s path. ap (λ files. files path) (rrep_error_files o e name s.world);
      times = λ times s path. refl;
      moved = λ cwd s path. refl;
      run = λ path name a s ok. SameFiles-Ends s _ (λ p. in_cwd_same _ s p (λ w.
          process_file_dry E alloc (record a.os { no_backups = no_backups }) o pattern r path name w
            dry loud));
    }

    skip_files : (name : Name) (s : Walk) → SameFiles s false (print_dir_skip o name s)
    unfolding print_dir_skip
    skip_files name s path = rw loud

    -- With OPT_DRY and without OPT_QUIET process_file_list changes no file, in no directory, whatever
    -- the arguments are and however it ends.
    pub process_file_list_dry :
        (opens : Bool) (list : List Argument) (s : Walk) (path : Name)
        → (process_file_list E X alloc no_backups o pattern r included excluded excluded_dirs opens
              list s).1.world.files
            path
          ≡ s.world.files path
    process_file_list_dry opens list s = Ends-SameFiles s _ (
        process_file_list-Ends E X alloc no_backups o pattern r included excluded excluded_dirs
          SameFiles SameAtEnd SameFiles-IsTransitive (λ _. Unit) dry_steps skip_files opens list s
          (unconditional list))
