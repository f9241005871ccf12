-- ===== src/Bufferio.antt =====
-- src/bufferio.c: the line buffer of read_line. A block of memory is a function from the index to
-- the byte that stands there; a fresh byte is whatever the function says.
pub mod Memory
pub mod Lines
pub mod Scan
pub mod Search
pub mod Refill
pub mod Read
pub mod Calls
pub mod Empty
pub mod Size
use rrep.Base.{
  ℕ, zero, suc, ◌+◌, ◌-◌, Bool, true, false, not, ◌&&◌, ◌||◌, List, [], ◌∷◌, ltb, leb, ◌==◌,
  if◌then◌else◌, length, take, drop,
}
use rrep.Messages.{ErrCode, read_file, realloc_buffer}
use rrep.Bufferio.Memory.{Block, update, window, store_all, move_down}

-- A stream that is open for reading: what is left to read, whether a device error (not the end)
-- follows it, the two indicators of the stream, and how often it was closed.
pub record File : Type 0 where
  pub rest : List ℕ
  pub bad : Bool
  pub eof : Bool
  pub error : Bool
  pub closes : ℕ

-- A stream at its start, as fopen and rewind leave it.
abbrev pub opened : List ℕ → Bool → File
opened bytes bad = record { rest = bytes; bad = bad; eof = false; error = false; closes = 0 }

-- fread: as many bytes as are there; a short count sets one of the two indicators.
abbrev pub fread_bytes : ℕ → File → List ℕ
fread_bytes n f = take n f.rest

abbrev pub fread_file : ℕ → File → File
fread_file n f =
    let short = ltb (length f.rest) n in
    record f {
      rest = drop n f.rest;
      eof = f.eof || (short && not f.bad);
      error = f.error || (short && f.bad);
    }

abbrev pub fclose : File → File
fclose f = record f { closes = f.closes + 1 }

-- The globals buffer and buffer_size, and the static variables of read_line.
pub record Reader : Type 0 where
  pub buffer : Block
  pub buffer_size : ℕ
  pub start : ℕ
  pub search_pos : ℕ
  pub buffer_fill : ℕ
  pub null_replace : ℕ

abbrev pub init_buffer_size : ℕ
init_buffer_size = 4096

abbrev pub newline : ℕ
newline = 10

-- What one call of read_line leaves: a line in the buffer, the end, or a failure.
pub data Status : Type 0 where
  success : ℕ → ℕ → Status
  end_reached : Status
  failure : ErrCode → Status
  out_of_fuel : Status

abbrev pub ReadOut : Type 0
ReadOut = Status × Reader × File

-- A failing read reports, closes the stream and gives up.
abbrev pub fail_read : ErrCode → Reader → File → ReadOut
fail_read e r f = (failure e, r, fclose f)

-- The test of the inner loop: whether the character before the search position ends the line.
abbrev pub delimits : Bool → ℕ → Bool
delimits binary c = c == newline || (binary && c == 0)

-- The inner loop; the first argument is what is left up to buffer_fill.
unfoldable pub scan : ℕ → Bool → Block → ℕ → ℕ
scan zero binary buf pos = pos
scan (suc n) binary buf pos =
    if delimits binary (buf (pos - 1)) then pos else scan n binary buf (pos + 1)

-- The branch that moves the line to the beginning of the buffer and fills the rest.
unfoldable pub refill : Reader → File → Reader × File
refill r f = (r', fread_file room f)
  where
    pos : ℕ
    pos = r.search_pos - r.start

    room : ℕ
    room = r.buffer_size - pos - 1

    got : List ℕ
    got = fread_bytes room f

    r' : Reader
    r' = record r {
      buffer = store_all (move_down (r.buffer_fill - r.start) 0 r.start r.buffer) pos got;
      start = 0;
      search_pos = pos;
      buffer_fill = r.buffer_fill + length got - r.start;
    }

-- The branch that enlarges the buffer and fills the new memory.
unfoldable pub grow : Reader → File → Reader × File
grow r f = (r', fread_file init_buffer_size f)
  where
    got : List ℕ
    got = fread_bytes init_buffer_size f

    r' : Reader
    r' = record r {
      buffer = store_all r.buffer r.search_pos got;
      buffer_size = r.buffer_size + init_buffer_size;
      buffer_fill = r.buffer_fill + length got;
    }

-- The end of read_line: the character after the line is saved and the line is terminated.
unfoldable pub finish_line : Reader → File → ReadOut
finish_line r f = (
  success r.start (r.search_pos - r.start),
  record r { null_replace = r.buffer r.search_pos; buffer = update r.buffer r.search_pos 0 },
  f,
)

-- The rest of an iteration after fread.
abbrev pub check_read : (Reader × File → ReadOut) → Reader × File → ReadOut
check_read continue (r, f) = if f.error then fail_read read_file r f else continue (r, f)

-- The first read of a new file.
unfoldable pub first_fill : Reader → File → Reader × File
first_fill r f = (
  record r {
    buffer = store_all r.buffer 0 (fread_bytes (r.buffer_size - 1) f);
    start = 0;
    search_pos = 1;
    buffer_fill = length (fread_bytes (r.buffer_size - 1) f);
  },
  fread_file (r.buffer_size - 1) f,
)

-- The static variables after the end of a file.
abbrev pub reset : Reader → Reader
reset r = record r { start = 0; search_pos = 1; buffer_fill = 0; null_replace = 0 }

-- The character after the line is restored, and the next line starts there.
unfoldable pub advance : Reader → Reader
advance r = record r {
  buffer = update r.buffer r.search_pos r.null_replace;
  start = r.search_pos;
  search_pos = r.search_pos + 1;
}

-- `alloc n` says whether realloc can give n bytes; `binary` is the flag OPT_BINARY.
module _ (binary : Bool) (alloc : ℕ → Bool) where
  unfoldable pub search : ℕ → Reader × File → ReadOut
  search zero (r, f) = (out_of_fuel, r, f)
  search (suc fuel) (r, f) =
      let pos = scan (r.buffer_fill - r.search_pos) binary r.buffer r.search_pos in
      let r' : Reader = record r { search_pos = pos } in
      let rest = λ (s : Reader × File). search fuel s in
      if leb r'.buffer_fill r'.search_pos && not f.eof
      then if ltb 0 r'.start
        then check_read rest (refill r' f)
        else if alloc (r'.buffer_size + init_buffer_size)
        then check_read rest (grow r' f)
        else fail_read realloc_buffer r' f
      else finish_line r' f

  -- read_line. `fresh` says that *line is NULL. Each round that reads and does not meet the end
  -- takes at least one byte of the file, so the fuel is enough for all.
  unfoldable pub read_line : Bool → Reader → File → ReadOut
  unfolding first_fill advance
  read_line fresh r f =
      if fresh
      then check_read (search (length f.rest + 2)) (first_fill r f)
      else if f.eof && leb r.buffer_fill r.search_pos
      then (end_reached, reset r, f)
      else search (length f.rest + 2) (advance r, f)
