-- ===== src/FileList/Binary.antt =====
-- Without OPT_BINARY and OPT_BACKUP no binary file is changed.
use mathlib.Core.Path.{subst}
use rrep.Base.{
  ℕ, ◌≡◌, ◌≤◌, ◌<◌, refl, sym, ap, ◌∙◌, ◌||◌, Bool, true, false, Option, none, some, List, length,
  if_both, inl, inr, Bool-cases,
}
use rrep.Options.{Options}
use rrep.Messages.{ErrCode}
use rrep.Pattern.{Engine, Pattern}
use rrep.Pattern.Regex.{IsLawful}
use rrep.Replacement.{Replace}
use rrep.World.{Name, World, Os, Exit, success, failure, aborted, stuck, has_nul, same_name}
use rrep.ProcessFile.{process_file}
use rrep.ProcessFile.Effects.{rrep_error_files}
use rrep.ProcessFile.Ends.{process_file-InTime}
use rrep.ProcessFile.Others.{same_name→eq, process_file_alone}
use rrep.ProcessFile.Fixed.{same_name_refl}
use rrep.ProcessFile.Binary.{process_file_binary}
use rrep.Names.{Excludes}
use rrep.Walk.{Walk, in_cwd, rrep_error, seen}
use rrep.Walk.View.{in_cwd_kept}
use rrep.Directories.Induction.{Relation, Ending, Ends, IsTransitive}
use rrep.Directories.Steps.{Steps}
use rrep.FileList.{Argument, print_dir_skip, process_file_list}
use rrep.FileList.Steps.{unconditional, process_file_list-Ends}
use rrep.FileList.Ends.{IsLarge}

-- The content of a file that holds a NUL.
abbrev pub IsBinary : Option (List ℕ) → Type 0
IsBinary none = ⊥
IsBinary (some bytes) = has_nul bytes ≡ true

IsBinary-some :
    (x : Option (List ℕ))
    → IsBinary x
    → (bytes : List ℕ) × (x ≡ some bytes) × (has_nul bytes ≡ true)
IsBinary-some none h = absurd h
IsBinary-some (some bytes) h = (bytes, refl, h)

module _ (E : Engine) (alloc : ℕ → Bool) (os : Os) (o : Options) (pattern : Pattern E) (r : Replace)
    (relative_path : Option Name) (file_name : Name) where
  -- Any binary file, the processed one or another one.
  pub process_file-spares_binary :
      (w : World) (path : Name)
      → 2 ≤ w.reader.buffer_size
      → o.binary ≡ false
      → o.backup ≡ false
      → IsBinary (w.files path)
      → (process_file E alloc os o pattern r relative_path file_name w).1.files path ≡ w.files path
  process_file-spares_binary w path big text bare h = elim (Bool-cases (same_name path file_name)) [
    | inr ne ↦
        process_file_alone E alloc os o pattern r relative_path file_name path w
          (λ e.
            absurd
              (let q = subst (λ name. same_name path name ≡ true) e (same_name_refl path) in cc))
          bare
    | inl e ↦
        let (bytes, content, nul) = IsBinary-some (w.files path) h in
        ap (λ files. files path)
          (process_file_binary E alloc os o pattern r relative_path file_name text w bytes big
            (ap w.files (sym (same_name→eq path file_name e)) ∙ content) nul).files
  ]

-- The buffer keeps its two bytes, and every binary file its content.
abbrev SparesBinary : Relation
SparesBinary s f t =
    IsLarge s
    → IsLarge t
      × ((path : Name) → IsBinary (s.world.files path) → t.world.files path ≡ s.world.files path)

abbrev SparesAtEnd : Ending
SparesAtEnd x s t = SparesBinary s true t

joined_spares :
    (s t u : Walk) (f g h : Bool) → SparesBinary s f t → SparesBinary t g u → SparesBinary s h u
joined_spares s t u f g h k l big =
    let (big', same) = k big in
    let (big'', same') = l big' in
    (big'', λ path b. same' path (subst IsBinary (sym (same path b)) b) ∙ same path b)

SparesBinary-IsTransitive : IsTransitive SparesBinary SparesAtEnd
SparesBinary-IsTransitive = record {
  same = λ s big. (big, λ path b. refl);
  joined = λ s t u f g h k. joined_spares s t u f g (f || g) h k;
  ended = λ x s t u f h k. joined_spares s t u f true true h k;
  late = λ x s t u h k. joined_spares s t u true false true h k;
}

SparesBinary-Ends :
    (s : Walk) (x : Exit × Walk) → SparesBinary s true x.1 → Ends SparesBinary SparesAtEnd s x
SparesBinary-Ends s (success, t) h = h
SparesBinary-Ends s (failure, t) h = h
SparesBinary-Ends s (aborted, t) h = h
SparesBinary-Ends s (stuck, t) h = h

Ends-SparesBinary :
    (s : Walk) (x : Exit × Walk) → Ends SparesBinary SparesAtEnd s x → SparesBinary s true x.1
Ends-SparesBinary s (success, t) h = h
Ends-SparesBinary s (failure, t) h = h
Ends-SparesBinary s (aborted, t) h = h
Ends-SparesBinary s (stuck, t) h = h

module _ (E : Engine) (lawful : IsLawful E) (X : Excludes) (alloc : ℕ → Bool) (no_backups : Bool)
    (o : Options) (pattern : Pattern E) (r : Replace)
    (included excluded excluded_dirs : Option X.Exclude) (pos : 0 < length pattern.string)
    (text : o.binary ≡ false) (bare : o.backup ≡ false) where
  report-SparesBinary :
      (e : ErrCode) (name : Name) (s : Walk) → SparesBinary s true (rrep_error o e name s)
  report-SparesBinary e name s big = (
    if_both (λ (w : World). 2 ≤ w.reader.buffer_size) o.no_messages (λ _. big) (λ _. big),
    λ path b. ap (λ files. files path) (rrep_error_files o e name s.world),
  )

  run-SparesBinary :
      (os : Os) (path : Option Name) (name : Name) (s : Walk)
      → SparesBinary s true (in_cwd (process_file E alloc os o pattern r path name) s).1
  unfolding in_cwd
  run-SparesBinary os path name s big = (
    (process_file-InTime E lawful alloc os o pattern r path name pos (seen s) big).large,
    λ other b. in_cwd_kept (process_file E alloc os o pattern r path name) s other (λ n e.
        process_file-spares_binary E alloc os o pattern r path name (seen s) n big text bare
          (subst (λ p. IsBinary (s.world.files p)) (sym e) b)),
  )

  spares_steps :
      Steps E X alloc no_backups o pattern r included excluded excluded_dirs SparesBinary
        SparesAtEnd SparesBinary-IsTransitive
        (λ _. Unit)
  spares_steps = record {
    error = report-SparesBinary;
    times = λ times s big. (big, λ path b. refl);
    moved = λ cwd s big. (big, λ path b. refl);
    run = λ path name a s ok.
        SparesBinary-Ends s _
          (run-SparesBinary (record a.os { no_backups = no_backups }) path name s);
  }

  skip-SparesBinary : (name : Name) (s : Walk) → SparesBinary s false (print_dir_skip o name s)
  unfolding print_dir_skip
  skip-SparesBinary name s =
      if_both (λ (t : Walk). SparesBinary s false t) o.quiet (λ _ big. (big, λ path b. refl))
        (λ _ big. (big, λ path b. refl))

  -- Every file that holds a NUL is as before.
  pub process_file_list_binary :
      (opens : Bool) (list : List Argument) (s : Walk) (path : Name)
      → IsLarge s
      → IsBinary (s.world.files path)
      → (process_file_list E X alloc no_backups o pattern r included excluded excluded_dirs opens
            list s).1.world.files
          path
        ≡ s.world.files path
  process_file_list_binary opens list s path big =
      (Ends-SparesBinary s _
          (process_file_list-Ends E X alloc no_backups o pattern r included excluded excluded_dirs
            SparesBinary SparesAtEnd SparesBinary-IsTransitive (λ _. Unit) spares_steps
            skip-SparesBinary opens list s (unconditional list))
          big).1
        path
