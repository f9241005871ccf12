-- ===== src/Walk.antt =====
-- The state of the walk over directories in src/rrep.c: the world with its files named from the
-- directory in which the program was started, the times of the files, and the working directory.
pub mod View
use rrep.Base.{
  ℕ, ◌-◌, Bool, true, false, not, ◌&&◌, ◌||◌, Option, none, some, List, [], ◌∷◌, ◌++◌, ◌==◌,
  if◌then◌else◌, length, get_or, drop, bytes,
}
use rrep.Options.{Options}
use rrep.Messages.{ErrCode, Message}
use rrep.Pattern.{is_prefix}
use rrep.World.{Name, Files, World, Os, Exit, success, failure, aborted, stuck, same_name}
use rrep.World

-- Access and modification time, in seconds.
abbrev pub Times : Type 0
Times = ℕ × ℕ

-- `cwd` holds the names that chdir has gone down by, the last one first.
pub record Walk : Type 0 where
  pub world : World
  pub times : Name → Times
  pub cwd : List Name

-- A name of a directory, with a slash behind it.
unfoldable pub with_slash : Name → Name
with_slash name =
    if length name == 0 || not (get_or name (length name - 1) 0 == b'/')
    then name ++ (b'/' ∷ [])
    else name

-- The names of the files in the working directory begin with this.
unfoldable pub prefix : List Name → Name
unfolding with_slash
prefix [] = []
prefix (d ∷ ds) = prefix ds ++ with_slash d

-- The world as a call in the working directory sees it.
abbrev pub seen : Walk → World
seen s = record s.world { files = λ name. s.world.files (prefix s.cwd ++ name) }

-- The files after a call in the working directory.
unfoldable pub put_back : Name → Files → Files → Files
unfolding is_prefix
put_back p here files path = if is_prefix p path then here (drop (length p) path) else files path

-- A call in the working directory.
unfoldable pub in_cwd : (World → Exit × World) → Walk → Exit × Walk
unfolding put_back prefix
in_cwd call s =
    let (x, w) = call (seen s) in
    (x, record s { world = record w { files = put_back (prefix s.cwd) w.files s.world.files } })

-- The new times of a file.
unfoldable pub set_times : Name → Times → Walk → Walk
unfolding prefix same_name
set_times name t s = record s {
  times = λ path. if same_name path (prefix s.cwd ++ name) then t else s.times path;
}

-- The times of the files after a call, from those before.
unfoldable pub touch : (Name → Times → Times) → Walk → Walk
touch f s = record s { times = λ path. f path (s.times path) }

-- The working directory itself, as the directory of the start names it.
unfoldable pub own_name : List Name → Name
unfolding prefix
own_name [] = bytes "."
own_name (d ∷ ds) = prefix ds ++ d

-- The new times of the working directory.
unfoldable pub set_own_times : Times → Walk → Walk
unfolding own_name same_name
set_own_times t s = record s {
  times = λ path. if same_name path (own_name s.cwd) then t else s.times path;
}

abbrev pub get_times : Name → Walk → Times
get_times name s = s.times (prefix s.cwd ++ name)

abbrev pub rrep_error : Options → ErrCode → Name → Walk → Walk
rrep_error o e name s = record s { world = World.rrep_error o e name s.world }

abbrev pub print : Message → Walk → Walk
print m s = record s { world = World.print m s.world }

-- chdir to a directory below, and back.
abbrev pub go_down : Name → Walk → Walk
go_down name s = record s { cwd = name ∷ s.cwd }

abbrev pub tail : List Name → List Name
tail [] = []
tail (d ∷ ds) = ds

abbrev pub go_up : Walk → Walk
go_up s = record s { cwd = tail s.cwd }

-- What a visit of an entry means for the loop that makes it: it goes on with its failure flag, or
-- leaves.
pub data Visit : Type 0 where
  goes_on : Bool → Visit
  stops : Exit → Visit

-- What follows a visit; the function makes the next rounds.
abbrev pub proceed : (Bool → Walk → Exit × Walk) → Bool → Visit × Walk → Exit × Walk
proceed again failed (goes_on f, s) = again (failed || f) s
proceed again failed (stops x, s) = (x, s)

-- The end of the functions with a failure flag.
abbrev pub flag_exit : Bool → Exit
flag_exit failed = if failed then failure else success

-- Whether a call reports failure; the program does not go on behind the other two.
abbrev pub visit_of : (Bool → Walk → Visit × Walk) → Exit × Walk → Visit × Walk
visit_of next (success, s) = next false s
visit_of next (failure, s) = next true s
visit_of next (aborted, s) = (stops aborted, s)
visit_of next (stuck, s) = (stops stuck, s)
