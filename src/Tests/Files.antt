-- ===== src/Tests/Files.antt =====
-- Calls of process_file on small files.
use rrep.Base.{
  bytes, ℕ, ◌≡◌, ◌≢◌, refl, true, false, [], ◌∷◌, ap, sym, ◌∙◌, arith, length, none, some,
  if◌then◌else◌,
}
use rrep.Options.{Options}
use rrep.Tests.{plenty, small, no_engine, old, new, story, story-Text, fixed_strings, any_place}
use rrep.Replace.Global.{replace_all}
use rrep.Pattern.{is_prefix}
use rrep.World.{Name, Files, World, Os, success, store_file, same_name, has_nul}
use rrep.ProcessFile.{process_file}
use rrep.ProcessFile.Binary.{Untouched, process_file_binary}
use rrep.ProcessFile.Others.{CopiesOnly, store_file_other, process_file_other}
use rrep.ProcessFile.Backup.{CopiesContent, IsSafe, process_file-IsSafe}
use rrep.ProcessFile.Fixed.{same_name_refl}
use rrep.ProcessFile.Rewrite.{Calm, Plainly, process_file_fixed}

abbrev pub notes : Name
notes = bytes "n"

abbrev backup_of_notes : Name
backup_of_notes = bytes "n~"

abbrev pub disk : Files
disk = λ name. some story

abbrev pub world : World
world = record { files = disk; reader = small; file_buffer = none; printed = []; reported = [] }

-- A system without failures, whose copy writes the destination.
abbrev pub system : Os
system = record {
  readable = true;
  bad = false;
  yesno = true;
  no_backups = false;
  find_backup_file_name = λ name. some backup_of_notes;
  copy_file_preserving = λ files from to. some (store_file files to []);
  tmpfile = true;
  tmp_bad = false;
  writable = true;
  room = 100;
}

system-Calm : Calm plenty system
system-Calm = record {
  grants = λ n. refl;
  readable = refl;
  good = refl;
  tmp_good = refl;
  writable = refl;
}

fixed_strings-Plainly : Plainly fixed_strings
fixed_strings-Plainly = record { fixed = refl; no_dry = refl; no_prompt = refl; no_backup = refl }

process_file_fixed_example :
    ((process_file no_engine plenty system fixed_strings old new none notes world).0 ≡ success)
    × ((process_file no_engine plenty system fixed_strings old new none notes world).1.files notes
        ≡ some (replace_all (bytes "ab") (bytes "xyz") 0 story))
unfolding replace_all is_prefix
process_file_fixed_example =
    process_file_fixed no_engine plenty system fixed_strings old new none notes system-Calm
      fixed_strings-Plainly any_place (omega arith) (refl, (refl, tt)) story (omega arith)
      story-Text (omega arith) world refl (omega arith)

abbrev with_backup : Options
with_backup = record fixed_strings { backup = true }

-- The files hold `ab`, NUL and `ab`.
abbrev binary_world : World
binary_world = record world { files = λ name. some (b'a' ∷ b'b' ∷ 0 ∷ b'a' ∷ b'b' ∷ []) }

process_file_binary_example :
    Untouched binary_world
      (process_file no_engine plenty system with_backup old new none notes binary_world).1
unfolding has_nul
process_file_binary_example =
    process_file_binary no_engine plenty system with_backup old new none notes refl binary_world
      (b'a' ∷ b'b' ∷ 0 ∷ b'a' ∷ b'b' ∷ []) (omega arith) refl refl

abbrev other_name : Name
other_name = bytes "other"

other_name-elsewhere : other_name ≢ notes
other_name-elsewhere = λ e. omega (arith, ap length e)

system-CopiesOnly : CopiesOnly no_engine plenty system with_backup old new none notes
system-CopiesOnly files files' from to e other ne =
    ap (λ x. elim x [ none ↦ files other | some f ↦ f other ]) (sym e)
    ∙ store_file_other files to other [] ne

not_the_backup : (b : Name) → some backup_of_notes ≡ some b → other_name ≢ b
not_the_backup b e q =
    omega (arith, ap {B = ℕ} (λ x. elim x [ none ↦ 0 | some name ↦ length name ]) e, ap length q)

process_file_other_example :
    (process_file no_engine plenty system with_backup old new none notes world).1.files other_name
    ≡ some story
process_file_other_example =
    process_file_other no_engine plenty system with_backup old new none notes other_name
      other_name-elsewhere not_the_backup system-CopiesOnly world

-- A system whose copy copies.
abbrev copying : Os
copying = record system {
  copy_file_preserving =
      λ files from to. some (λ name. if same_name name to then files from else files name);
}

copying-CopiesContent : CopiesContent no_engine plenty copying with_backup old new none notes
copying-CopiesContent files files' from to e =
    ap (λ x. elim x [ none ↦ files from | some f ↦ f to ]) (sym e) ∙ rw (same_name_refl to)

notes-elsewhere : backup_of_notes ≢ notes
notes-elsewhere = λ e. omega (arith, ap length e)

process_file-IsSafe_example :
    IsSafe no_engine plenty copying with_backup old new none notes backup_of_notes refl
      notes-elsewhere copying-CopiesContent refl refl world
      (process_file no_engine plenty copying with_backup old new none notes world)
process_file-IsSafe_example =
    process_file-IsSafe no_engine plenty copying with_backup old new none notes backup_of_notes refl
      notes-elsewhere copying-CopiesContent refl refl world
