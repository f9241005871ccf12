-- ===== src/Directories/Steps.antt =====
-- Relations that every single step of the walk keeps: then every visit keeps them.
use rrep.Base.{
  ℕ, ◌+◌, Bool, true, false, not, ◌||◌, Option, none, some, List, [], ◌∷◌, length, if_both,
}
use rrep.Options.{Options}
use rrep.Messages.{
  ErrCode, open_dir, keep_times, alloc_pathbuffer, process_dir as process_dir_error,
}
use rrep.Pattern.{Engine, Pattern}
use rrep.Replacement.{Replace}
use rrep.World.{Name, Exit, success, failure, aborted, stuck}
use rrep.ProcessFile.{process_file}
use rrep.Names.{Excludes, check_name}
use rrep.Walk.{
  Times, Walk, in_cwd, set_times, set_own_times, touch, rrep_error, go_down, go_up, tail,
}
use rrep.Directories.{
  FileAnswers, DirAnswers, Saved, Descent, no_descent, descent, save_times, restore_times, run_file,
  keep_and_run, visit_file, goes_into, enter, before_dir, leave, around_dir,
}
use rrep.Directories.Induction.{
  Relation, Ending, Ends, Visits, IsTransitive, stopped, kept, Visits-visit_of, Visited,
}

module _ (E : Engine) (X : Excludes) (alloc : ℕ → Bool) (no_backups : Bool) (o : Options)
    (pattern : Pattern E) (r : Replace) (included excluded excluded_dirs : Option X.Exclude)
    (R : Relation) (Q : Ending) (tr : IsTransitive R Q) (FileOk : FileAnswers → Type 0) where
  pub record Steps : Type 0 where
    pub error : (e : ErrCode) (name : Name) (s : Walk) → R s true (rrep_error o e name s)
    pub times : (times : Name → Times) (s : Walk) → R s false (record s { times = times })
    pub moved : (cwd : List Name) (s : Walk) → R s false (record s { cwd = cwd })
    pub run :
        (path : Option Name) (name : Name) (a : FileAnswers) (s : Walk)
        → FileOk a
        → Ends R Q s (
            in_cwd
              (process_file E alloc (record a.os { no_backups = no_backups }) o pattern r path name)
              s)

  module _ (st : Steps) where
    set_times-R : (name : Name) (t : Times) (s : Walk) → R s false (set_times name t s)
    unfolding set_times
    set_times-R name t s = st.times _ s

    touch-R : (f : Name → Times → Times) (s : Walk) → R s false (touch f s)
    unfolding touch
    touch-R f s = st.times _ s

    set_own_times-R : (t : Times) (s : Walk) → R s false (set_own_times t s)
    unfolding set_own_times
    set_own_times-R t s = st.times _ s

    abbrev SavedR : Walk → Saved × Walk → Type 0
    SavedR s x = R s x.0.0 x.1

    save_times-R :
        (name : Name) (lstat : Bool) (s : Walk)
        → SavedR s (
            save_times E X alloc no_backups o pattern r included excluded excluded_dirs name lstat
              s)
    unfolding save_times
    save_times-R name lstat s =
        if_both (SavedR s) (not o.keep_times) (λ _. tr.same s)
          (λ _. if_both (SavedR s) lstat (λ _. tr.same s) (λ _. st.error keep_times name s))

    pub restore_times-R :
        (name : Name) (utime : Bool) (saved : Saved) (s t : Walk)
        → R s saved.0 t
        → Visits R Q s (
            restore_times E X alloc no_backups o pattern r included excluded excluded_dirs name
              utime saved t)
    unfolding restore_times
    restore_times-R name utime (failed, none) s t h = h
    restore_times-R name utime (failed, some x) s t h =
        if_both (Visits R Q s) utime
          (λ _. kept tr s t (set_times name x t) failed h (set_times-R name x t))
          (λ _. stopped tr s t _ failed h (st.error keep_times name t))

    -- A call followed by a step that keeps the relation.
    Ends-then :
        (next : Walk → Walk) (s : Walk) (y : Exit × Walk)
        → ((t : Walk) → R t false (next t))
        → Ends R Q s y
        → Ends R Q s (y.0, next y.1)
    Ends-then next s (success, t) k h = kept tr s t (next t) false h (k t)
    Ends-then next s (failure, t) k h = kept tr s t (next t) true h (k t)
    Ends-then next s (aborted, t) k h = tr.late aborted s t (next t) h (k t)
    Ends-then next s (stuck, t) k h = tr.late stuck s t (next t) h (k t)

    pub keep_and_run-R :
        (path : Option Name) (name : Name) (a : FileAnswers) (s : Walk) (x : Saved × Walk)
        → FileOk a
        → SavedR s x
        → Visits R Q s (
            keep_and_run E X alloc no_backups o pattern r included excluded excluded_dirs path name
              a x)
    unfolding keep_and_run run_file
    keep_and_run-R path name a s ((failed, saved), t) ok h =
        Visits-visit_of tr _ s t failed _ h
          (Ends-then (λ u. set_times name a.touched (touch a.others u)) t _
            (λ u.
              kept tr u (touch a.others u) (set_times name a.touched (touch a.others u)) false
                (touch-R a.others u) (set_times-R name a.touched (touch a.others u)))
            (st.run path name a t ok))
          (λ f u k. restore_times-R name a.utime (failed || f, saved) s u k)

    visit_file-R :
        (path name : Name) (a : FileAnswers) (s : Walk)
        → FileOk a
        → Visits R Q s (
            visit_file E X alloc no_backups o pattern r included excluded excluded_dirs path name a
              s)
    unfolding visit_file
    visit_file-R path name a s ok =
        if_both (Visits R Q s) (check_name X o (some name) included excluded)
          (λ _. keep_and_run-R (some path) name a s _ ok (save_times-R name a.lstat s))
          (λ _. tr.same s)

    -- The state on the way into a directory.
    abbrev DescentR : Walk → Descent × Walk → Type 0
    DescentR s (no_descent v, t) = Visits R Q s (v, t)
    DescentR s (descent saved, t) = R s saved.0 t

    enter-R :
        (path name : Name) (a : DirAnswers) (s : Walk) (x : Saved × Walk)
        → SavedR s x
        → DescentR s
            (enter E X alloc no_backups o pattern r included excluded excluded_dirs path name a x)
    unfolding enter
    enter-R path name a s ((failed, saved), t) h =
        if_both (DescentR s) (not a.chdir)
          (λ _. stopped tr s t _ failed h (st.error process_dir_error name t))
          (λ _.
            if_both (DescentR s) (not (alloc (length path + length name + 2)))
              (λ _.
                stopped tr s (go_down name t) _ failed (down name s t failed h)
                  (st.error alloc_pathbuffer name (go_down name t)))
              (λ _. down name s t failed h))
      where
        down : (name : Name) (s t : Walk) (f : Bool) → R s f t → R s f (go_down name t)
        down name s t f h = kept tr s t _ f h (st.moved (name ∷ t.cwd) t)

    before_dir-R :
        (path name : Name) (a : DirAnswers) (s : Walk)
        → DescentR s (
            before_dir E X alloc no_backups o pattern r included excluded excluded_dirs path name a
              s)
    unfolding before_dir
    before_dir-R path name a s =
        if_both (DescentR s)
          (goes_into E X alloc no_backups o pattern r included excluded excluded_dirs name)
          (λ _. enter-R path name a s _ (save_times-R name a.lstat s)) (λ _. tr.same s)

    leave-R :
        (name : Name) (a : DirAnswers) (saved : Saved) (f : Bool) (s t : Walk)
        → R s (saved.0 || f) t
        → Visits R Q s (
            leave E X alloc no_backups o pattern r included excluded excluded_dirs name a saved f t)
    unfolding leave
    leave-R name a (failed, saved) f s t h =
        if_both (Visits R Q s) (not a.chdir_back)
          (λ _. stopped tr s t _ (failed || f) h (st.error process_dir_error name t))
          (λ _.
            restore_times-R name a.utime (failed || f, saved) s _
              (kept tr s t (go_up t) (failed || f) h (st.moved (tail t.cwd) t)))

    around_dir-R :
        (name : Name) (a : DirAnswers) (walk : Walk → Exit × Walk) (s : Walk) (x : Descent × Walk)
        → ((t : Walk) → Ends R Q t (walk t))
        → DescentR s x
        → Visits R Q s (
            around_dir E X alloc no_backups o pattern r included excluded excluded_dirs walk name a
              x)
    unfolding around_dir
    around_dir-R name a walk s (no_descent v, t) w h = h
    around_dir-R name a walk s (descent (failed, saved), t) w h =
        Visits-visit_of tr _ s t failed _ h (w t) (λ f u k. leave-R name a (failed, saved) f s u k)

    -- Every visit keeps the relation, whatever the system answers for the directories.
    pub Steps-Visited :
        Visited E X alloc no_backups o pattern r included excluded excluded_dirs R Q tr FileOk
          (λ _. Unit)
    Steps-Visited = record {
      read = set_own_times-R;
      unopened = λ s. st.error open_dir [] s;
      file = visit_file-R;
      dir = λ path name a walk s ok w. around_dir-R name a walk s _ w (before_dir-R path name a s);
    }
