-- ===== src/Tests/Walking.antt =====
-- Calls of check_name, process_dir and process_file_list on a small tree.
use rrep.Base.{All, ◌≡◌, refl, Bool, true, false, not, none, List, [], ◌∷◌, if◌then◌else◌, bytes}
use rrep.Options.{Options}
use rrep.World.{Name, Os, Exit, success, failure, same_name}
use rrep.Bufferio.{read_line, search, scan, grow, finish_line}
use rrep.Bufferio.Memory.{window, store_all}
use rrep.EachLine.{whole_file}
use rrep.Pattern.{match_pattern, strstr, is_prefix, cstr, check_whole}
use rrep.ProcessFile.{process_file, scan_file, scan_line}
use rrep.ProcessFile.Reports.{Silent, process_file-Silent}
use rrep.Names.{Excludes, check_include_name, check_name}
use rrep.Walk.{Walk, with_slash, prefix, put_back}
use rrep.Directories.{
  FileAnswers, DirAnswers, Directory, readable, end, reads, regular, directory, other, next_path,
  process_dir,
}
use rrep.Directories.Induction.{AllOk, Ends}
use rrep.Directories.Unmoved.{Unmoved, UnmovedInside, AnyEnd, FileKept, DirKept}
use rrep.Directories.KeptTimes.{process_dir-Unmoved}
use rrep.FileList.{Argument, dir_argument, file_argument, process_file_list}
use rrep.FileList.KeptTimes.{ArgumentKept, process_file_list-Unmoved}
use rrep.FileList.Silence.{process_file_list-silent}
use rrep.Tests.{plenty, no_engine, old, new, fixed_strings}
use rrep.Tests.Files.{notes, world, system}

-- A list is its last name, and whether the other names are meant.
abbrev pub one_name : Excludes
one_name = record {
  Exclude = Name × Bool;
  new_exclude = ([], false);
  add_exclude = λ list name flag. (name, flag);
  excluded_file_name =
      λ list name. if list.1 then not (same_name list.0 name) else same_name list.0 name;
}

abbrev pub file_answers : FileAnswers
file_answers = record {
  os = system;
  lstat = true;
  utime = true;
  touched = (9, 9);
  others = λ path t. t;
}

abbrev dir_answers : DirAnswers
dir_answers = record { lstat = true; chdir = true; chdir_back = true; utime = true }

-- A directory with a file and a directory that holds another file. Reading it changes its times.
abbrev tree : Directory
tree = readable (
    reads (7, 2)
      (regular notes file_answers (
        directory (bytes "sub") dir_answers
          (readable (reads (8, 2) (regular notes file_answers end))) (other (bytes "pipe") end))))

abbrev pub walk : Walk
walk = record { world = world; times = λ path. (1, 2); cwd = [] }

abbrev keeping : Options
keeping = record fixed_strings { keep_times = true; recursive = true }

tree-AllOk : AllOk (FileKept false) DirKept tree
unfolding AllOk
tree-AllOk =
    ((refl, refl, λ b path t. refl), ((refl, refl, refl), ((refl, refl, λ b path t. refl), tt), tt))

abbrev in_d : Walk
in_d = record walk { cwd = bytes "d" ∷ [] }

process_dir-Unmoved_example : Ends UnmovedInside AnyEnd in_d (
    process_dir no_engine one_name plenty true keeping old new none none none (bytes "d") tree in_d)
process_dir-Unmoved_example =
    process_dir-Unmoved no_engine one_name plenty true keeping old new none none none refl refl
      (λ n. refl) (bytes "d") tree in_d tree-AllOk

abbrev pub dry_run : Options
dry_run = record fixed_strings { dry = true; recursive = true }

abbrev pub arguments : List Argument
arguments = file_argument notes file_answers ∷ dir_argument (bytes "d") dir_answers tree ∷ []

-- The run goes into the directory and the one below it, and finds both files.
tree_run :
    (process_file_list no_engine one_name plenty true dry_run old new none none none true
      (dir_argument (bytes "d") dir_answers tree ∷ [])
      walk).0
    ≡ success
unfolding process_file_list process_file scan_file scan_line whole_file read_line search scan
    store_all grow finish_line window match_pattern strstr is_prefix cstr check_whole prefix
    with_slash put_back check_name check_include_name next_path process_dir rrep.World.has_nul
tree_run = refl

process_file_list-silent_example :
    (process_file_list no_engine one_name plenty true dry_run old new none none none true
      (dir_argument (bytes "d") dir_answers tree ∷ [])
      walk).1.world.reported
    ≡ []
process_file_list-silent_example =
    process_file_list-silent no_engine one_name plenty true dry_run old new none none none true
      (dir_argument (bytes "d") dir_answers tree ∷ []) walk tree_run

process_file-Silent_example :
    Silent world (process_file no_engine plenty system fixed_strings old new none notes world)
process_file-Silent_example =
    process_file-Silent no_engine plenty system fixed_strings old new none notes world

arguments-Kept : All (ArgumentKept false) arguments
unfolding AllOk
arguments-Kept = ((refl, λ b path t. refl), ((refl, refl, tree-AllOk), tt))

process_file_list-Unmoved_example : Ends Unmoved AnyEnd walk (
    process_file_list no_engine one_name plenty true keeping old new none none none true arguments
      walk)
process_file_list-Unmoved_example =
    process_file_list-Unmoved no_engine one_name plenty true keeping old new none none none refl
      refl (λ n. refl) true arguments walk refl arguments-Kept
