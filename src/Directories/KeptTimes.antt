-- ===== src/Directories/KeptTimes.antt =====
-- The walk with OPT_KEEP_TIMES and without OPT_BACKUP: where it ends, and which times it changes.
use rrep.Base.{
  ℕ, ◌+◌, ◌≡◌, refl, ap, ◌∙◌, Bool, true, false, not, Option, some, ◌++◌, length, if_both,
}
use rrep.Options.{Options}
use rrep.Pattern.{Engine, Pattern}
use rrep.Replacement.{Replace}
use rrep.World.{Name, Exit, success, failure, aborted, stuck, same_name}
use rrep.Names.{Excludes, check_name}
use rrep.Walk.{
  Times, Walk, prefix, in_cwd, set_times, own_name, touch, get_times, go_down, go_up, tail,
  visit_of,
}
use rrep.Directories.{
  FileAnswers, DirAnswers, Directory, save_times, restore_times, run_file, keep_and_run, visit_file,
  goes_into, enter, before_dir, leave, around_dir, process_dir,
}
use rrep.Directories.Induction.{Ends, Visits, AllOk, process_dir-Ends}
use rrep.Directories.Unmoved.{
  Unmoved, UnmovedInside, AnyEnd, UnmovedInside-IsTransitive, Visits-inside, set_own_times-Inside,
  FileKept, DirKept, times_restored, set_times_cwd,
}

module _ (E : Engine) (X : Excludes) (alloc : ℕ → Bool) (no_backups : Bool) (o : Options)
    (pattern : Pattern E) (r : Replace) (included excluded excluded_dirs : Option X.Exclude)
    (keep : o.keep_times ≡ true) (plain : o.backup ≡ false)
    (grants : (n : ℕ) → alloc n ≡ true) where
  saved_times :
      (name : Name) (lstat : Bool) (s : Walk)
      → lstat ≡ true
      → save_times E X alloc no_backups o pattern r included excluded excluded_dirs name lstat s
        ≡ ((false, some (get_times name s)), s)
  unfolding save_times
  saved_times name lstat s l = rw (keep, l)

  -- The times that were saved in the beginning come back.
  pub restored :
      (name : Name) (utime : Bool) (f : Bool) (s t : Walk)
      → utime ≡ true
      → t.cwd ≡ s.cwd
      → ((path : Name)
          → same_name path (prefix s.cwd ++ name) ≡ false
          → t.times path ≡ s.times path)
      → Visits Unmoved AnyEnd s (
          restore_times E X alloc no_backups o pattern r included excluded excluded_dirs name utime
            (f, some (get_times name s))
            t)
  unfolding restore_times
  restored name utime f s t u c h =
      rw u (set_times_cwd name (get_times name s) t ∙ c, times_restored name s t c h)

  -- What process_file does to the times of the file, and of no other.
  touched_elsewhere :
      (name : Name) (a : FileAnswers) (s t : Walk)
      → t.cwd ≡ s.cwd
      → ((path : Name) → t.times path ≡ s.times path)
      → ((path : Name) (x : Times) → a.others path x ≡ x)
      → (path : Name) → same_name path (prefix s.cwd ++ name) ≡ false
      → (set_times name a.touched (touch a.others t)).times path ≡ s.times path
  unfolding set_times touch
  touched_elsewhere name a s t c h n path e = rw (c, e) (n path (t.times path) ∙ h path)

  touched_cwd :
      (name : Name) (a : FileAnswers) (t : Walk)
      → (set_times name a.touched (touch a.others t)).cwd ≡ t.cwd
  unfolding set_times touch
  touched_cwd name a t = refl

  ran :
      (name : Name) (a : FileAnswers) (s t : Walk) (x : Exit)
      → a.utime ≡ true
      → ((path : Name) (y : Times) → a.others path y ≡ y)
      → Unmoved s false t
      → Visits Unmoved AnyEnd s (
          visit_of
            (λ f u.
              restore_times E X alloc no_backups o pattern r included excluded excluded_dirs name
                a.utime
                (f, some (get_times name s))
                u)
            (x, set_times name a.touched (touch a.others t)))
  ran name a s t success u n (c, h) =
      restored name a.utime false s _ u (touched_cwd name a t ∙ c)
        (touched_elsewhere name a s t c h n)
  ran name a s t failure u n (c, h) =
      restored name a.utime true s _ u (touched_cwd name a t ∙ c)
        (touched_elsewhere name a s t c h n)
  ran name a s t aborted u n h = tt
  ran name a s t stuck u n h = tt

  pub kept_and_run :
      (path : Option Name) (name : Name) (a : FileAnswers) (s : Walk)
      → a.utime ≡ true
      → (o.backup ≡ false → (p : Name) (t : Times) → a.others p t ≡ t)
      → Visits Unmoved AnyEnd s (
          keep_and_run E X alloc no_backups o pattern r included excluded excluded_dirs path name a
            ((false, some (get_times name s)), s))
  unfolding keep_and_run run_file in_cwd
  kept_and_run path name a s u n = ran name a s _ _ u (n plain) (refl, λ p. refl)

  visit_file-Unmoved :
      (path name : Name) (a : FileAnswers) (s : Walk)
      → FileKept o.backup a
      → Visits Unmoved AnyEnd s (
          visit_file E X alloc no_backups o pattern r included excluded excluded_dirs path name a s)
  unfolding visit_file
  visit_file-Unmoved path name a s (l, u, n) =
      if_both (Visits Unmoved AnyEnd s) (check_name X o (some name) included excluded)
        (λ _. rw (saved_times name a.lstat s l) (kept_and_run (some path) name a s u n))
        (λ _. (refl, λ p. refl))

  leave-Unmoved :
      (name : Name) (a : DirAnswers) (f : Bool) (s t : Walk)
      → DirKept a
      → UnmovedInside (go_down name s) true t
      → Visits Unmoved AnyEnd s (
          leave E X alloc no_backups o pattern r included excluded excluded_dirs name a
            (false, some (get_times name s))
            f
            t)
  unfolding leave own_name
  leave-Unmoved name a f s t (l, u, b) (c, h) =
      if_both (Visits Unmoved AnyEnd s) (not a.chdir_back) (λ e. absurd (let q = (rw b at e) in cc))
        (λ _. restored name a.utime f s (go_up t) u (ap tail c) h)

  left :
      (name : Name) (a : DirAnswers) (s : Walk) (x : Exit × Walk)
      → DirKept a
      → Ends UnmovedInside AnyEnd (go_down name s) x
      → Visits Unmoved AnyEnd s (
          visit_of
            (leave E X alloc no_backups o pattern r included excluded excluded_dirs name a
              (false, some (get_times name s)))
            x)
  left name a s (success, t) ok h = leave-Unmoved name a false s t ok h
  left name a s (failure, t) ok h = leave-Unmoved name a true s t ok h
  left name a s (aborted, t) ok h = tt
  left name a s (stuck, t) ok h = tt

  entered :
      (path name : Name) (a : DirAnswers) (walk : Walk → Exit × Walk) (s : Walk)
      → DirKept a
      → ((t : Walk) → Ends UnmovedInside AnyEnd t (walk t))
      → Visits Unmoved AnyEnd s (
          around_dir E X alloc no_backups o pattern r included excluded excluded_dirs walk name a (
            enter E X alloc no_backups o pattern r included excluded excluded_dirs path name a
              ((false, some (get_times name s)), s)))
  unfolding around_dir enter
  entered path name a walk s ok w =
      if_both
        (λ x. Visits Unmoved AnyEnd s (
          around_dir E X alloc no_backups o pattern r included excluded excluded_dirs walk name a
            x))
        (not a.chdir) (λ _. (refl, λ p. refl))
        (λ _. rw (grants (length path + length name + 2)) (left name a s _ ok (w (go_down name s))))

  around_dir-Unmoved :
      (path name : Name) (a : DirAnswers) (walk : Walk → Exit × Walk) (s : Walk)
      → DirKept a
      → ((t : Walk) → Ends UnmovedInside AnyEnd t (walk t))
      → Visits Unmoved AnyEnd s (
          around_dir E X alloc no_backups o pattern r included excluded excluded_dirs walk name a (
            before_dir E X alloc no_backups o pattern r included excluded excluded_dirs path name a
              s))
  unfolding before_dir around_dir
  around_dir-Unmoved path name a walk s (l, u, b) w =
      if_both
        (λ x. Visits Unmoved AnyEnd s (
          around_dir E X alloc no_backups o pattern r included excluded excluded_dirs walk name a
            x))
        (goes_into E X alloc no_backups o pattern r included excluded excluded_dirs name)
        (λ _. rw (saved_times name a.lstat s l) (entered path name a walk s (l, u, b) w))
        (λ _. (refl, λ p. refl))

  -- With OPT_KEEP_TIMES and without OPT_BACKUP, where malloc grants every size, the system lets the
  -- times of every entry be read and set and every way back be found, and process_file changes the
  -- times of no other file unless it makes a backup: if process_dir returns, with SUCCESS or with
  -- FAILURE, it is in the directory in which it was called, and no file or directory but that
  -- directory itself has other times than before, whatever process_file and readdir did to them.
  pub process_dir-Unmoved :
      (path : Name) (d : Directory) (s : Walk)
      → AllOk (FileKept o.backup) DirKept d
      → Ends UnmovedInside AnyEnd s
          (process_dir E X alloc no_backups o pattern r included excluded excluded_dirs path d s)
  process_dir-Unmoved =
      process_dir-Ends E X alloc no_backups o pattern r included excluded excluded_dirs
        UnmovedInside AnyEnd UnmovedInside-IsTransitive (FileKept o.backup) DirKept
        (record {
          read = set_own_times-Inside;
          unopened = λ s. (refl, λ p e. refl);
          file = λ path name a s ok. Visits-inside s _ (visit_file-Unmoved path name a s ok);
          dir = λ path name a walk s ok w.
              Visits-inside s _ (around_dir-Unmoved path name a walk s ok w);
        })
