-- ===== src/FileList/KeptTimes.antt =====
-- process_file_list with OPT_KEEP_TIMES and without OPT_BACKUP.
use rrep.Base.{
  ℕ, ◌≡◌, refl, sym, ◌∙◌, Bool, true, false, not, Option, none, some, List, [], ◌∷◌, All,
  Bool-cases, inl, inr, if_both,
}
use rrep.Options.{Options}
use rrep.Pattern.{Engine, Pattern}
use rrep.Replacement.{Replace}
use rrep.World.{Name, Exit, success, failure, aborted, stuck}
use rrep.Names.{Excludes, check_include_name}
use rrep.Walk.{Times, Walk, own_name, get_times, go_down, visit_of}
use rrep.Directories.{DirAnswers}
use rrep.Directories.Induction.{Ends, Visits, AllOk, Ends-proceed, Ends-flag_exit}
use rrep.Directories.Unmoved.{
  Unmoved, UnmovedInside, AnyEnd, Unmoved-IsTransitive, FileKept, DirKept,
}
use rrep.Directories.KeptTimes.{restored, kept_and_run, process_dir-Unmoved}
use rrep.FileList.{
  Argument, missing, dir_argument, file_argument, special, go_home, print_dir_skip, known_times,
  return_home, visit_dir_argument, visit_argument, process_arguments, process_file_list,
}

-- The system lets the times of the argument, and of all that is below it, be set again, and the way
-- back be found. Without OPT_BACKUP, process_file changes the times of no other file.
abbrev pub ArgumentKept : Bool → Argument → Type 0
ArgumentKept backup (missing name) = Unit
ArgumentKept backup (dir_argument name a d) =
    (a.utime ≡ true) × (a.chdir_back ≡ true) × AllOk (FileKept backup) DirKept d
ArgumentKept backup (file_argument name a) =
    (a.utime ≡ true) × (backup ≡ false → (path : Name) (t : Times) → a.others path t ≡ t)
ArgumentKept backup (special name) = Unit

module _ (E : Engine) (X : Excludes) (alloc : ℕ → Bool) (no_backups : Bool) (o : Options)
    (pattern : Pattern E) (r : Replace) (included excluded excluded_dirs : Option X.Exclude)
    (keep : o.keep_times ≡ true) (plain : o.backup ≡ false)
    (grants : (n : ℕ) → alloc n ≡ true) where
  skip-Unmoved : (name : Name) (s : Walk) → Unmoved s false (print_dir_skip o name s)
  unfolding print_dir_skip
  skip-Unmoved name s = elim (Bool-cases o.quiet) [
    | inl q ↦ rw q (refl, λ p. refl)
    | inr q ↦ rw q (refl, λ p. refl)
  ]

  known :
      (name : Name) (s : Walk)
      → known_times E X alloc no_backups o pattern r included excluded excluded_dirs name s
        ≡ (false, some (get_times name s))
  unfolding known_times
  known name s = rw keep

  return_home-Unmoved :
      (name : Name) (a : DirAnswers) (f : Bool) (s t : Walk)
      → s.cwd ≡ []
      → a.utime ≡ true
      → a.chdir_back ≡ true
      → UnmovedInside (go_down name s) true t
      → Visits Unmoved AnyEnd s (
          return_home E X alloc no_backups o pattern r included excluded excluded_dirs name a
            (known_times E X alloc no_backups o pattern r included excluded excluded_dirs name s)
            f
            t)
  unfolding return_home own_name
  return_home-Unmoved name a f s t home u b (c, h) = rw (known name s) (
      if_both (Visits Unmoved AnyEnd s) (not a.chdir_back) (λ e. absurd (let q = (rw b at e) in cc))
        (λ _.
          restored E X alloc no_backups o pattern r included excluded excluded_dirs keep plain
            grants name a.utime f s (go_home t) u (sym home) h))

  returned :
      (name : Name) (a : DirAnswers) (s : Walk) (x : Exit × Walk)
      → s.cwd ≡ []
      → a.utime ≡ true
      → a.chdir_back ≡ true
      → Ends UnmovedInside AnyEnd (go_down name s) x
      → Visits Unmoved AnyEnd s (
          visit_of
            (return_home E X alloc no_backups o pattern r included excluded excluded_dirs name a
              (known_times E X alloc no_backups o pattern r included excluded excluded_dirs name s))
            x)
  returned name a s (success, t) home u b h = return_home-Unmoved name a false s t home u b h
  returned name a s (failure, t) home u b h = return_home-Unmoved name a true s t home u b h
  returned name a s (aborted, t) home u b h = tt
  returned name a s (stuck, t) home u b h = tt

  visit_argument-Unmoved :
      (omit : Bool) (x : Argument) (s : Walk)
      → s.cwd ≡ []
      → ArgumentKept o.backup x
      → Visits Unmoved AnyEnd s
          (visit_argument E X alloc no_backups o pattern r included excluded excluded_dirs omit x s)
  unfolding visit_argument visit_dir_argument
  visit_argument-Unmoved omit (missing name) s home ok = (refl, λ p. refl)
  visit_argument-Unmoved omit (special name) s home ok = (refl, λ p. refl)
  visit_argument-Unmoved omit (file_argument name a) s home (u, n) =
      if_both (Visits Unmoved AnyEnd s) (check_include_name X name included excluded)
        (λ _. rw (known name s) (
          kept_and_run E X alloc no_backups o pattern r included excluded excluded_dirs keep plain
            grants none name a s u n))
        (λ _. (refl, λ p. refl))
  visit_argument-Unmoved omit (dir_argument name a d) s home (u, b, ok) =
      if_both (Visits Unmoved AnyEnd s) omit (λ _. skip-Unmoved name s)
        (λ _.
          if_both (Visits Unmoved AnyEnd s) (not (check_include_name X name none excluded_dirs))
            (λ _. (refl, λ p. refl))
            (λ _.
              if_both (Visits Unmoved AnyEnd s) a.chdir
                (λ _. returned name a s _ home u b (
                  process_dir-Unmoved E X alloc no_backups o pattern r included excluded
                    excluded_dirs keep plain grants name d (go_down name s) ok))
                (λ _. (refl, λ p. refl))))

  process_arguments-Unmoved :
      (omit : Bool) (list : List Argument) (failed : Bool) (s t : Walk)
      → s.cwd ≡ []
      → All (ArgumentKept o.backup) list
      → Unmoved s failed t
      → Ends Unmoved AnyEnd s (
          process_arguments E X alloc no_backups o pattern r included excluded excluded_dirs omit
            list failed t)
  unfolding process_arguments
  process_arguments-Unmoved omit [] failed s t home ok h =
      Ends-flag_exit Unmoved-IsTransitive s t failed h
  process_arguments-Unmoved omit (x ∷ list) failed s t home (ok, oks) h =
      Ends-proceed Unmoved-IsTransitive _ s t failed _ h
        (visit_argument-Unmoved omit x t (h.0 ∙ home) ok)
        (λ f u k. process_arguments-Unmoved omit list f s u home oks k)

  -- With OPT_KEEP_TIMES and without OPT_BACKUP, called in the directory in which the program was
  -- started, where malloc grants every size, the system lets the times of every argument and of every
  -- entry below be read and set and every way back be found, and process_file changes the times of no
  -- other file unless it makes a backup: if process_file_list returns, with SUCCESS or with FAILURE,
  -- it is in the same directory, and no file or directory has other times than before.
  pub process_file_list-Unmoved :
      (opens : Bool) (list : List Argument) (s : Walk)
      → s.cwd ≡ []
      → All (ArgumentKept o.backup) list
      → Ends Unmoved AnyEnd s (
          process_file_list E X alloc no_backups o pattern r included excluded excluded_dirs opens
            list s)
  unfolding process_file_list
  process_file_list-Unmoved opens list s home ok =
      if_both (Ends Unmoved AnyEnd s) opens
        (λ _. process_arguments-Unmoved false list false s s home ok (refl, λ p. refl))
        (λ _. process_arguments-Unmoved true list true s _ home ok (refl, λ p. refl))
