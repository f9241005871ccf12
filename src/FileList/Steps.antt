-- ===== src/FileList/Steps.antt =====
-- Relations that every single step keeps are kept by process_dir and process_file_list.
use rrep.Base.{ℕ, Bool, true, false, not, ◌||◌, Option, none, List, [], ◌∷◌, All, if_both}
use rrep.Options.{Options}
use rrep.Messages.{process_arg, process_dir as process_dir_error, save_dir}
use rrep.Pattern.{Engine, Pattern}
use rrep.Replacement.{Replace}
use rrep.World.{Name}
use rrep.Names.{Excludes, check_include_name}
use rrep.Walk.{Walk, go_down, Visit}
use rrep.Directories.{
  FileAnswers, DirAnswers, Directory, readable, unreadable, Entries, end, reads, other, regular,
  directory, Saved, process_dir,
}
use rrep.Directories.Induction.{
  Relation, Ending, Ends, Visits, IsTransitive, stopped, kept, Ends-flag_exit, Ends-proceed,
  Visits-visit_of, AllOk, EntriesOk, process_dir-Ends,
}
use rrep.Directories.Steps.{Steps, Steps-Visited, restore_times-R, keep_and_run-R}
use rrep.FileList.{
  Argument, missing, dir_argument, file_argument, special, go_home, print_dir_skip, known_times,
  return_home, visit_dir_argument, visit_argument, process_arguments, process_file_list,
}

module _ (FileOk : FileAnswers → Type 0) where
  -- The answers of the system for an argument.
  abbrev pub ArgumentOk : Argument → Type 0
  ArgumentOk (missing name) = Unit
  ArgumentOk (dir_argument name a d) = AllOk FileOk (λ _. Unit) d
  ArgumentOk (file_argument name a) = FileOk a
  ArgumentOk (special name) = Unit

-- Nothing is asked of the system.
mutual
  unfolding AllOk

  no_condition : (d : Directory) → AllOk (λ _. Unit) (λ _. Unit) d
  no_condition unreadable = tt
  no_condition (readable es) = no_conditions es

  no_conditions : (es : Entries) → EntriesOk (λ _. Unit) (λ _. Unit) es
  no_conditions end = tt
  no_conditions (reads t es) = no_conditions es
  no_conditions (other name es) = no_conditions es
  no_conditions (regular name a es) = (tt, no_conditions es)
  no_conditions (directory name a d es) = (tt, no_condition d, no_conditions es)

unconditional_one : (x : Argument) → ArgumentOk (λ _. Unit) x
unconditional_one (missing name) = tt
unconditional_one (dir_argument name a d) = no_condition d
unconditional_one (file_argument name a) = tt
unconditional_one (special name) = tt

pub unconditional : (list : List Argument) → All (ArgumentOk (λ _. Unit)) list
unconditional [] = tt
unconditional (x ∷ list) = (unconditional_one x, unconditional list)

module _ (E : Engine) (X : Excludes) (alloc : ℕ → Bool) (no_backups : Bool) (o : Options)
    (pattern : Pattern E) (r : Replace) (included excluded excluded_dirs : Option X.Exclude)
    (R : Relation) (Q : Ending) (tr : IsTransitive R Q) (FileOk : FileAnswers → Type 0)
    (st : Steps E X alloc no_backups o pattern r included excluded excluded_dirs R Q tr FileOk)
    (skip : (name : Name) (s : Walk) → R s false (print_dir_skip o name s)) where
  process_dir-R :
      (path : Name) (d : Directory) (s : Walk)
      → AllOk FileOk (λ _. Unit) d
      → Ends R Q s
          (process_dir E X alloc no_backups o pattern r included excluded excluded_dirs path d s)
  process_dir-R path d s ok =
      process_dir-Ends E X alloc no_backups o pattern r included excluded excluded_dirs R Q tr
        FileOk (λ _. Unit)
        (Steps-Visited E X alloc no_backups o pattern r included excluded excluded_dirs R Q tr
          FileOk st)
        path d s ok

  return_home-R :
      (name : Name) (a : DirAnswers) (saved : Saved) (f : Bool) (s t : Walk)
      → R s (saved.0 || f) t
      → Visits R Q s (
          return_home E X alloc no_backups o pattern r included excluded excluded_dirs name a saved
            f t)
  unfolding return_home
  return_home-R name a (failed, saved) f s t h =
      if_both (Visits R Q s) (not a.chdir_back)
        (λ _. stopped tr s t _ (failed || f) h (st.error process_dir_error name t))
        (λ _.
          restore_times-R E X alloc no_backups o pattern r included excluded excluded_dirs R Q tr
            FileOk st name a.utime (failed || f, saved) s _
            (kept tr s t (go_home t) (failed || f) h (st.moved [] t)))

  visit_dir_argument-R :
      (omit : Bool) (name : Name) (a : DirAnswers) (d : Directory) (s : Walk)
      → AllOk FileOk (λ _. Unit) d
      → Visits R Q s (
          visit_dir_argument E X alloc no_backups o pattern r included excluded excluded_dirs omit
            name a d s)
  unfolding visit_dir_argument known_times
  visit_dir_argument-R omit name a d s ok =
      if_both (Visits R Q s) omit (λ _. skip name s)
        (λ _.
          if_both (Visits R Q s) (not (check_include_name X name none excluded_dirs))
            (λ _. tr.same s)
            (λ _.
              if_both (Visits R Q s) a.chdir
                (λ _.
                  Visits-visit_of tr (back name a s) s (go_down name s) false _
                    (st.moved (name ∷ s.cwd) s) (process_dir-R name d (go_down name s) ok)
                    (λ f u k. return_home-R name a (saved name s) f s u k))
                (λ _. st.error process_dir_error name s)))
    where
      saved : Name → Walk → Saved
      saved name s =
          known_times E X alloc no_backups o pattern r included excluded excluded_dirs name s

      back : Name → DirAnswers → Walk → Bool → Walk → Visit × Walk
      back name a s =
          return_home E X alloc no_backups o pattern r included excluded excluded_dirs name a
            (saved name s)

  visit_argument-R :
      (omit : Bool) (x : Argument) (s : Walk)
      → ArgumentOk FileOk x
      → Visits R Q s
          (visit_argument E X alloc no_backups o pattern r included excluded excluded_dirs omit x s)
  unfolding visit_argument known_times
  visit_argument-R omit (missing name) s ok = st.error process_arg name s
  visit_argument-R omit (dir_argument name a d) s ok = visit_dir_argument-R omit name a d s ok
  visit_argument-R omit (special name) s ok = tr.same s
  visit_argument-R omit (file_argument name a) s ok =
      if_both (Visits R Q s) (check_include_name X name included excluded)
        (λ _.
          keep_and_run-R E X alloc no_backups o pattern r included excluded excluded_dirs R Q tr
            FileOk st none name a s _ ok (tr.same s))
        (λ _. tr.same s)

  process_arguments-R :
      (omit : Bool) (list : List Argument) (failed : Bool) (s t : Walk)
      → All (ArgumentOk FileOk) list
      → R s failed t
      → Ends R Q s (
          process_arguments E X alloc no_backups o pattern r included excluded excluded_dirs omit
            list failed t)
  unfolding process_arguments
  process_arguments-R omit [] failed s t ok h = Ends-flag_exit tr s t failed h
  process_arguments-R omit (x ∷ list) failed s t (ok, oks) h =
      Ends-proceed tr _ s t failed _ h (visit_argument-R omit x t ok)
        (λ f u k. process_arguments-R omit list f s u oks k)

  pub process_file_list-Ends :
      (opens : Bool) (list : List Argument) (s : Walk)
      → All (ArgumentOk FileOk) list
      → Ends R Q s (
          process_file_list E X alloc no_backups o pattern r included excluded excluded_dirs opens
            list s)
  unfolding process_file_list
  process_file_list-Ends opens list s ok =
      if_both (Ends R Q s) opens (λ _. process_arguments-R false list false s s ok (tr.same s))
        (λ _. process_arguments-R true list true s _ ok (st.error save_dir [] s))
