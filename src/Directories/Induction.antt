-- ===== src/Directories/Induction.antt =====
-- Induction over the walk of process_dir: what every visit establishes, the walk establishes.
use rrep.Base.{ℕ, Bool, true, false, ◌||◌, Option, []}
use rrep.Options.{Options}
use rrep.Pattern.{Engine, Pattern}
use rrep.Replacement.{Replace}
use rrep.Messages.{open_dir}
use rrep.World.{Name, Exit, success, failure, aborted, stuck}
use rrep.Names.{Excludes}
use rrep.Walk.{
  Times, Walk, set_own_times, rrep_error, Visit, goes_on, stops, proceed, flag_exit, visit_of,
}
use rrep.Directories.{
  FileAnswers, DirAnswers, Directory, unreadable, readable, Entries, end, reads, regular, directory,
  other, visit_file, before_dir, around_dir, process_dir, process_entries, next_path,
}

-- A relation between the states before and after, for each failure flag.
abbrev pub Relation : Type 1
Relation = Walk → Bool → Walk → Type 0

-- The same where the program has ended inside a call, for each way it has ended.
abbrev pub Ending : Type 1
Ending = Exit → Walk → Walk → Type 0

module _ (R : Relation) (Q : Ending) where
  -- The relation for a function that ends with an exit status. The program does not go on behind the
  -- last two.
  abbrev pub Ends : Walk → Exit × Walk → Type 0
  Ends s (success, t) = R s false t
  Ends s (failure, t) = R s true t
  Ends s (aborted, t) = Q aborted s t
  Ends s (stuck, t) = Q stuck s t

  -- The relation for a visit, which does not leave the loop with success.
  abbrev pub Visits : Walk → Visit × Walk → Type 0
  Visits s (goes_on f, t) = R s f t
  Visits s (stops success, t) = ⊥
  Visits s (stops failure, t) = R s true t
  Visits s (stops aborted, t) = Q aborted s t
  Visits s (stops stuck, t) = Q stuck s t

  pub record IsTransitive : Type 0 where
    pub same : (s : Walk) → R s false s
    pub joined : (s t u : Walk) (f g : Bool) → R s f t → R t g u → R s (f || g) u
    pub ended : (x : Exit) (s t u : Walk) (f : Bool) → R s f t → Q x t u → Q x s u
    pub late : (x : Exit) (s t u : Walk) → Q x s t → R t false u → Q x s u

module _ {R : Relation} {Q : Ending} (tr : IsTransitive R Q) where
  pub Ends-flag_exit : (s t : Walk) (f : Bool) → R s f t → Ends R Q s (flag_exit f, t)
  Ends-flag_exit s t true h = h
  Ends-flag_exit s t false h = h

  pub stopped : (s t u : Walk) (f : Bool) → R s f t → R t true u → R s true u
  stopped s t u true h k = tr.joined s t u true true h k
  stopped s t u false h k = tr.joined s t u false true h k

  pub kept : (s t u : Walk) (f : Bool) → R s f t → R t false u → R s f u
  kept s t u true h k = tr.joined s t u true false h k
  kept s t u false h k = tr.joined s t u false false h k

  -- What follows a call that ends with an exit status.
  pub Visits-visit_of :
      (next : Bool → Walk → Visit × Walk) (s t : Walk) (failed : Bool) (x : Exit × Walk)
      → R s failed t
      → Ends R Q t x
      → ((f : Bool) (u : Walk) → R s (failed || f) u → Visits R Q s (next f u))
      → Visits R Q s (visit_of next x)
  Visits-visit_of next s t failed (success, u) h k after =
      after false u (tr.joined s t u failed false h k)
  Visits-visit_of next s t failed (failure, u) h k after =
      after true u (tr.joined s t u failed true h k)
  Visits-visit_of next s t failed (aborted, u) h k after = tr.ended aborted s t u failed h k
  Visits-visit_of next s t failed (stuck, u) h k after = tr.ended stuck s t u failed h k

  -- A visit in the loop, and what the loop does behind it.
  pub Ends-proceed :
      (again : Bool → Walk → Exit × Walk) (s t : Walk) (failed : Bool) (v : Visit × Walk)
      → R s failed t
      → Visits R Q t v
      → ((f : Bool) (u : Walk) → R s f u → Ends R Q s (again f u))
      → Ends R Q s (proceed again failed v)
  Ends-proceed again s t failed (goes_on f, u) h k next =
      next (failed || f) u (tr.joined s t u failed f h k)
  Ends-proceed again s t failed (stops success, u) h k next = absurd k
  Ends-proceed again s t failed (stops failure, u) h k next = stopped s t u failed h k
  Ends-proceed again s t failed (stops aborted, u) h k next = tr.ended aborted s t u failed h k
  Ends-proceed again s t failed (stops stuck, u) h k next = tr.ended stuck s t u failed h k

module _ (FileOk : FileAnswers → Type 0) (DirOk : DirAnswers → Type 0) where
  -- The answers of the system to the whole walk.
  unfoldable mutual
    pub AllOk : Directory → Type 0
    AllOk unreadable = Unit
    AllOk (readable es) = EntriesOk es

    pub EntriesOk : Entries → Type 0
    EntriesOk end = Unit
    EntriesOk (reads t es) = EntriesOk es
    EntriesOk (other name es) = EntriesOk es
    EntriesOk (regular name a es) = FileOk a × EntriesOk es
    EntriesOk (directory name a d es) = DirOk a × AllOk d × EntriesOk es

module _ (E : Engine) (X : Excludes) (alloc : ℕ → Bool) (no_backups : Bool) (o : Options)
    (pattern : Pattern E) (r : Replace) (included excluded excluded_dirs : Option X.Exclude)
    (R : Relation) (Q : Ending) (tr : IsTransitive R Q) (FileOk : FileAnswers → Type 0)
    (DirOk : DirAnswers → Type 0) where
  -- What has to be shown of the visits.
  pub record Visited : Type 0 where
    pub read : (t : Times) (s : Walk) → R s false (set_own_times t s)
    pub unopened : (s : Walk) → R s true (rrep_error o open_dir [] s)
    pub file :
        (path name : Name) (a : FileAnswers) (s : Walk)
        → FileOk a
        → Visits R Q s (
            visit_file E X alloc no_backups o pattern r included excluded excluded_dirs path name a
              s)
    pub dir :
        (path name : Name) (a : DirAnswers) (walk : Walk → Exit × Walk) (s : Walk)
        → DirOk a
        → ((t : Walk) → Ends R Q t (walk t))
        → Visits R Q s (
            around_dir E X alloc no_backups o pattern r included excluded excluded_dirs walk name a
              (before_dir E X alloc no_backups o pattern r included excluded excluded_dirs path name
                a s))

  module _ (v : Visited) where
    mutual
      unfolding process_dir AllOk

      walk_dir :
          (path : Name) (d : Directory) (s : Walk)
          → AllOk FileOk DirOk d
          → Ends R Q s (
              process_dir E X alloc no_backups o pattern r included excluded excluded_dirs path d s)
      walk_dir path unreadable s ok = v.unopened s
      walk_dir path (readable es) s ok = walk_entries path es false s s ok (tr.same s)

      walk_entries :
          (path : Name) (es : Entries) (failed : Bool) (s t : Walk)
          → EntriesOk FileOk DirOk es
          → R s failed t
          → Ends R Q s (
              process_entries E X alloc no_backups o pattern r included excluded excluded_dirs path
                es failed t)
      walk_entries path end failed s t ok h = Ends-flag_exit tr s t failed h
      walk_entries path (reads x es) failed s t ok h =
          walk_entries path es failed s (set_own_times x t) ok (kept tr s t _ failed h (v.read x t))
      walk_entries path (other name es) failed s t ok h = walk_entries path es failed s t ok h
      walk_entries path (regular name a es) failed s t (ok, oks) h =
          Ends-proceed tr _ s t failed _ h (v.file path name a t ok)
            (λ f u k. walk_entries path es f s u oks k)
      walk_entries path (directory name a d es) failed s t (ok, below, oks) h =
          Ends-proceed tr _ s t failed _ h
            (v.dir path name a
              (process_dir E X alloc no_backups o pattern r included excluded excluded_dirs
                (next_path path name) d)
              t ok (λ u. walk_dir (next_path path name) d u below))
            (λ f u k. walk_entries path es f s u oks k)

    -- Where every visit keeps the relation, the walk does.
    pub process_dir-Ends :
        (path : Name) (d : Directory) (s : Walk)
        → AllOk FileOk DirOk d
        → Ends R Q s
            (process_dir E X alloc no_backups o pattern r included excluded excluded_dirs path d s)
    process_dir-Ends path d s ok = walk_dir path d s ok
