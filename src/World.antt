-- ===== src/World.antt =====
-- What the functions of src/rrep.c that work on files read and change: the files, the globals and the
-- output; and what they report (rrep_error and print_regerror of src/messages.c).
use rrep.Base.{
  ℕ, ◌-◌, Bool, true, false, not, ◌&&◌, ◌||◌, Option, none, some, List, [], ◌∷◌, ◌++◌, ◌==◌,
  if◌then◌else◌, length, get_or,
}
use rrep.Options.{Options}
use rrep.Messages.{ErrCode, Message, Report, coded, regex}
use rrep.Bufferio.{Reader}

abbrev pub Name : Type 0
Name = List ℕ

-- The contents of the files; a name without a file has none.
abbrev pub Files : Type 0
Files = Name → Option (List ℕ)

unfoldable pub same_name : Name → Name → Bool
same_name [] [] = true
same_name [] (d ∷ b) = false
same_name (c ∷ a) [] = false
same_name (c ∷ a) (d ∷ b) = c == d && same_name a b

unfoldable pub store_file : Files → Name → List ℕ → Files
store_file files name bytes other = if same_name other name then some bytes else files other

-- What a call of process_file reads and changes: the files, the globals and static variables of
-- bufferio.c, the size of file_buffer where it is allocated, and the output so far.
pub record World : Type 0 where
  pub files : Files
  pub reader : Reader
  pub file_buffer : Option ℕ
  pub printed : List Message
  pub reported : List Report

-- What the system and the libraries answer during the call. `copy_file_preserving` gives nothing
-- where it ends the program; `room` is how many bytes the device takes.
pub record Os : Type 0 where
  pub readable : Bool
  pub bad : Bool
  pub yesno : Bool
  pub no_backups : Bool
  pub find_backup_file_name : Name → Option Name
  pub copy_file_preserving : Files → Name → Name → Option Files
  pub tmpfile : Bool
  pub tmp_bad : Bool
  pub writable : Bool
  pub room : ℕ

-- How a call ends. `aborted` is the end of the program inside copy_file_preserving, `stuck` a loop of
-- the model that ran out of fuel.
pub data Exit : Type 0 where
  success failure aborted stuck : Exit

abbrev pub print : Message → World → World
print m w = record w { printed = w.printed ++ (m ∷ []) }

-- rrep_error, but for the texts: nothing is reported with OPT_NO_MESSAGES.
abbrev pub rrep_error : Options → ErrCode → Name → World → World
rrep_error o e name w =
    if o.no_messages then w else record w { reported = w.reported ++ (coded e name ∷ []) }

-- print_regerror, but for the text. It does not look at the options.
abbrev pub print_regerror : ℕ → World → World
print_regerror e w = record w { reported = w.reported ++ (regex e ∷ []) }

-- The name as the confirmation shows it, behind the directory where there is one.
unfoldable pub shown_name : Option Name → Name → Name
shown_name none name = name
shown_name (some path) name =
    if length path == 0 || not (get_or path (length path - 1) 0 == b'/')
    then path ++ (b'/' ∷ name)
    else path ++ name

-- memchr (line, '\0', line_len) != NULL
unfoldable pub has_nul : List ℕ → Bool
has_nul [] = false
has_nul (c ∷ s) = c == 0 || has_nul s

-- How the scan ends before the end of the file.
pub data ScanEnd : Type 0 where
  binary_file : ScanEnd
  scan_regerror : ℕ → ScanEnd
  scan_stuck : ScanEnd

-- How the copy from the temporary stream ends.
pub data CopyEnd : Type 0 where
  copied : CopyEnd
  copy_failed : ErrCode → CopyEnd
  copy_stuck : CopyEnd
