-- ===== src/Directories/Unmoved.antt =====
-- What the walk of process_dir leaves as it was: the working directory, and the times of the files.
use rrep.Base.{◌≡◌, refl, sym, ap, ◌∙◌, Bool, true, false, ◌++◌, Bool-cases, inl, inr}
use rrep.World.{Name, success, failure, aborted, stuck, same_name}
use rrep.ProcessFile.Others.{same_name→eq}
use rrep.Walk.{
  Times, Walk, prefix, set_times, set_own_times, own_name, get_times, Visit, goes_on, stops,
}
use rrep.Directories.{FileAnswers, DirAnswers}
use rrep.Directories.Induction.{Relation, Ending, Visits, IsTransitive}

-- The working directory and all times are as before.
abbrev pub Unmoved : Relation
Unmoved s f t = (t.cwd ≡ s.cwd) × ((path : Name) → t.times path ≡ s.times path)

abbrev pub AnyEnd : Ending
AnyEnd x s t = Unit

pub Unmoved-IsTransitive : IsTransitive Unmoved AnyEnd
Unmoved-IsTransitive = record {
  same = λ s. (refl, λ path. refl);
  joined = λ s t u f g h k. (k.0 ∙ h.0, λ path. k.1 path ∙ h.1 path);
  ended = λ x s t u f h k. tt;
  late = λ x s t u h k. tt;
}

-- The same without the times of the working directory, which its reading changes.
abbrev pub UnmovedInside : Relation
UnmovedInside s f t =
    (t.cwd ≡ s.cwd)
    × ((path : Name) → same_name path (own_name s.cwd) ≡ false → t.times path ≡ s.times path)

pub UnmovedInside-IsTransitive : IsTransitive UnmovedInside AnyEnd
UnmovedInside-IsTransitive = record {
  same = λ s. (refl, λ path e. refl);
  joined = λ s t u f g h k. (k.0 ∙ h.0, λ path e. k.1 path (rw h.0 e) ∙ h.1 path e);
  ended = λ x s t u f h k. tt;
  late = λ x s t u h k. tt;
}

pub Visits-inside :
    (s : Walk) (v : Visit × Walk) → Visits Unmoved AnyEnd s v → Visits UnmovedInside AnyEnd s v
Visits-inside s (goes_on f, t) h = (h.0, λ path e. h.1 path)
Visits-inside s (stops success, t) h = absurd h
Visits-inside s (stops failure, t) h = (h.0, λ path e. h.1 path)
Visits-inside s (stops aborted, t) h = tt
Visits-inside s (stops stuck, t) h = tt

pub set_own_times-Inside : (x : Times) (s : Walk) → UnmovedInside s false (set_own_times x s)
unfolding set_own_times
set_own_times-Inside x s = (refl, λ path e. rw e refl)

-- The system lets the times be read and set. Without OPT_BACKUP, process_file changes the times of
-- no other file.
abbrev pub FileKept : Bool → FileAnswers → Type 0
FileKept backup a =
    (a.lstat ≡ true)
    × (a.utime ≡ true)
    × (backup ≡ false → (path : Name) (t : Times) → a.others path t ≡ t)

-- The same for a directory, and the way back is found.
abbrev pub DirKept : DirAnswers → Type 0
DirKept a = (a.lstat ≡ true) × (a.utime ≡ true) × (a.chdir_back ≡ true)

-- Setting the times of a file undoes what has changed of them since.
pub times_restored :
    (name : Name) (s t : Walk)
    → t.cwd ≡ s.cwd
    → ((path : Name) → same_name path (prefix s.cwd ++ name) ≡ false → t.times path ≡ s.times path)
    → (path : Name) → (set_times name (get_times name s) t).times path ≡ s.times path
unfolding set_times
times_restored name s t c h path = elim (Bool-cases (same_name path (prefix t.cwd ++ name))) [
  | inl e ↦ rw e (ap s.times (sym (same_name→eq path (prefix s.cwd ++ name) (rw c at e))))
  | inr e ↦ rw e (h path (rw c at e))
]

pub set_times_cwd : (name : Name) (x : Times) (s : Walk) → (set_times name x s).cwd ≡ s.cwd
unfolding set_times
set_times_cwd name x s = refl
