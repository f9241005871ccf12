-- ===== src/Messages/OneLine.antt =====
-- Every error message of src/messages.c is one line.
use rrep.Base.{
  ℕ, ◌-◌, ◌≡◌, ◌≢◌, take, length, Bool, true, false, not, ◌&&◌, List, [], ◌∷◌, ◌++◌, bytes, ◌==◌,
  if◌then◌else◌,
}
use rrep.Bufferio.{newline}
use rrep.Messages.{
  ErrCode, process_arg, process_dir, pattern, unknown_escape, alloc_filebuffer, alloc_pathbuffer,
  alloc_backup, realloc_buffer, realloc_filebuffer, memory, open_read, open_write, read_file,
  read_temp, write_backup, overwrite, keep_times,
}
use rrep.Messages.Texts.{phrase, names_file, adds_error, perror}
use rrep.Replace.Text.{OneLine}

-- A text that ends with its only newline.
abbrev pub IsLine : List ℕ → Type 0
IsLine text = (w : List ℕ) × (text ≡ w ++ (newline ∷ [])) × OneLine w

abbrev no_newline : List ℕ → Bool
no_newline [] = true
no_newline (c ∷ s) = not (c == newline) && no_newline s

-- What an error is about: a file or a directory that the caller names, REPLACEMENT, or the program.
abbrev pub names_place : ErrCode → Bool
names_place process_arg = true
names_place process_dir = true
names_place unknown_escape = true
names_place alloc_filebuffer = true
names_place alloc_pathbuffer = true
names_place alloc_backup = true
names_place realloc_buffer = true
names_place realloc_filebuffer = true
names_place memory = true
names_place open_read = true
names_place open_write = true
names_place read_file = true
names_place read_temp = true
names_place write_backup = true
names_place overwrite = true
names_place keep_times = true
names_place _ = false

-- The errors of the command line have no cause in the system.
abbrev pub has_cause : ErrCode → Bool
has_cause pattern = false
has_cause unknown_escape = false
has_cause _ = true

-- The name of the program, the file or argument where there is one, what has failed, and the
-- description of the current error where the system is the cause.
abbrev pub layout : List ℕ → ErrCode → List ℕ → List ℕ → List ℕ → List ℕ
layout program code f e what =
    program
    ++ bytes ": "
    ++ (if names_place code then f ++ bytes ": " else [])
    ++ what
    ++ (if has_cause code then bytes ": " ++ e else [])

-- The text, less its newline, says these things, and says what has failed.
abbrev pub Explains : List ℕ → ErrCode → List ℕ → List ℕ → List ℕ → Type 0
Explains program code f e text =
    (what : List ℕ) × (what ≢ [])
    × OneLine what
    × (text ≡ layout program code f e what ++ (newline ∷ []))

-- What the format says, without the colon or the newline at its end.
unfoldable summary : ErrCode → List ℕ
unfolding phrase adds_error
summary code =
    let format = bytes (phrase code) in
    take (length format - (if adds_error code then 2 else 1)) format

abbrev says : List ℕ → Bool
says [] = false
says (c ∷ s) = no_newline (c ∷ s)

-- The three things that the switch settles for each code.
abbrev Settles : ErrCode → List ℕ → Type 0
Settles code e =
    (says (summary code) ≡ true)
    × (names_file code ≡ names_place code)
    × (bytes (phrase code) ++ (if adds_error code then perror e else [])
        ≡ summary code ++ ((if has_cause code then bytes ": " ++ e else []) ++ (newline ∷ [])))
