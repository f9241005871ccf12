-- ===== src/ProcessFile.antt =====
-- process_file and backup_file of src/rrep.c: the scan of a file for a match, the options that ask
-- or only list, the backup, and the copy of the result back to the file.
pub mod CopyBack
pub mod Effects
pub mod Others
pub mod Fixed
pub mod Rewrite
pub mod Reports
pub mod ScanEnds
pub mod Ends
pub mod Backup
pub mod Binary
use rrep.Base.{
  ℕ, zero, suc, ◌+◌, ◌-◌, Bool, true, false, not, ◌&&◌, ◌||◌, Option, none, some, List, [], ◌∷◌,
  ◌++◌, ltb, ◌==◌, if◌then◌else◌, length, take, get_or,
}
use rrep.Options.{Options}
use rrep.Messages.{
  ErrCode, open_read, open_write, alloc_backup, alloc_filebuffer, realloc_filebuffer, read_temp,
  overwrite,
}
use rrep.Bufferio.{File, Reader, opened, fread_bytes, fread_file, init_buffer_size}
use rrep.Bufferio.Memory.{store_all}
use rrep.Pattern.{Engine, Pattern, matched, no_match, regerror, starved, match_pattern}
use rrep.Replacement.{Replace}
use rrep.EachLine
use rrep.EachLine.{Step, next, return, Ended, done, returned, failed}
use rrep.Replace.{
  Sink, stream, buffered, LineEnd, flushed, write_failed, regex_failed, out_of_rounds,
  replace_string,
}
use rrep.Messages.{Message, listed, asked, confirmed, Report, coded, regex}
use rrep.World.{
  Name, Files, same_name, store_file, World, Os, Exit, success, failure, aborted, stuck, print,
  rrep_error, print_regerror, shown_name, has_nul, ScanEnd, binary_file, scan_regerror, scan_stuck,
  CopyEnd, copied, copy_failed, copy_stuck,
}

-- The loop that copies the temporary stream to the file through the buffer; the last argument is
-- what the file holds.
unfoldable pub copy_back : ℕ → ℕ → Reader → File → List ℕ → CopyEnd × Reader × List ℕ
copy_back zero room r tmp out = (copy_stuck, r, out)
copy_back (suc fuel) room r tmp out =
    let got = fread_bytes r.buffer_size tmp in
    let tmp' = fread_file r.buffer_size tmp in
    let r' : Reader = record r { buffer = store_all r.buffer 0 got } in
    elim tmp.eof [
      | true ↦ (copied, r, out)
      | false ↦ elim tmp'.error [
        | true ↦ (copy_failed read_temp, r', out)
        | false ↦ elim (ltb room (length (out ++ got))) [
          | true ↦ (copy_failed overwrite, r', take room (out ++ got))
          | false ↦ copy_back fuel room r' tmp' (out ++ got)
        ]
      ]
    ]

-- The start of replace_string: the temporary stream, or file_buffer, which is allocated if it is not
-- there; nothing if that fails.
unfoldable pub start_sink : (ℕ → Bool) → Bool → Option ℕ → Option Sink
start_sink alloc true held = some (stream [])
start_sink alloc false (some size) = some (buffered size [])
start_sink alloc false none =
    if alloc init_buffer_size then some (buffered init_buffer_size []) else none

-- The size of file_buffer after the work on a sink.
abbrev pub held_by : Sink → Option ℕ → Option ℕ
held_by (stream bytes) held = held
held_by (buffered size bytes) held = some size

module _ (E : Engine) (alloc : ℕ → Bool) (os : Os) (o : Options) (pattern : Pattern E) (r : Replace)
    (relative_path : Option Name) (file_name : Name) where
  -- The body of the scan; the state is found_flag.
  unfoldable pub scan_line : List ℕ → Bool → Step Bool ScanEnd
  scan_line line found =
      if not o.binary && has_nul line
      then return binary_file
      else elim (match_pattern E o pattern line 0) [
        | matched m subs ↦ next true
        | no_match ↦ next found
        | regerror e ↦ return (scan_regerror e)
        | starved ↦ return scan_stuck
      ]

  -- With OPT_BINARY the scan stops at the first match.
  abbrev pub scan_goes_on : Bool → Bool
  scan_goes_on found = not found || not o.binary

  unfoldable pub scan_file : World → File → Ended Bool ScanEnd × Reader × File
  unfolding scan_line
  scan_file w fp = EachLine.whole_file scan_goes_on scan_line o.binary alloc w.reader fp false

  -- The confirmation at the end of process_file.
  unfoldable pub confirm : World → World
  confirm w = if o.quiet then w else print (confirmed (shown_name relative_path file_name)) w

  -- backup_file. The exit status is `success` where process_file goes on.
  unfoldable pub backup_file : World → Exit × World
  backup_file w =
      if os.no_backups then (success, w) else elim (os.find_backup_file_name file_name) [
        | none ↦ (failure, rrep_error o alloc_backup file_name w)
        | some backup_name ↦ elim (os.copy_file_preserving w.files file_name backup_name) [
          | none ↦ (aborted, w)
          | some files ↦ (success, record w { files = files })
        ]
      ]

  -- The file holds what was written to it.
  abbrev pub overwritten : List ℕ → World → World
  overwritten bytes w = record w { files = store_file w.files file_name bytes }

  -- What follows the loop that copies the temporary stream.
  unfoldable pub after_copy : World → CopyEnd × Reader × List ℕ → Exit × World
  unfolding confirm
  after_copy w (copied, reader, out) =
      (success, confirm (overwritten out (record w { reader = reader })))
  after_copy w (copy_failed e, reader, out) =
      (failure, rrep_error o e file_name (overwritten out (record w { reader = reader })))
  after_copy w (copy_stuck, reader, out) = (stuck, overwritten out (record w { reader = reader }))

  -- The end of process_file after replace_string has succeeded: freopen, and the copy from
  -- file_buffer or from the temporary stream.
  unfoldable pub write_back : Sink → World → Exit × World
  unfolding confirm copy_back after_copy
  write_back (buffered size bytes) w =
      if not os.writable
      then (failure, rrep_error o open_write file_name w)
      else if ltb os.room (length bytes)
      then (failure, rrep_error o overwrite file_name (overwritten (take os.room bytes) w))
      else (success, confirm (overwritten bytes w))
  write_back (stream bytes) w =
      if not os.writable
      then (failure, rrep_error o open_write file_name w)
      else after_copy w (copy_back (length bytes + 2) os.room w.reader (opened bytes os.tmp_bad) [])

  -- What follows replace_string. read_line and print_regerror have reported their failures.
  unfoldable pub after_replace : World → Ended Sink (Sink × LineEnd) × Reader × File → Exit × World
  unfolding write_back
  after_replace w (done sink, reader, f) =
      write_back sink (record w { reader = reader; file_buffer = held_by sink w.file_buffer })
  after_replace w (failed sink e, reader, f) = (
    failure,
    rrep_error o e file_name
        (record w { reader = reader; file_buffer = held_by sink w.file_buffer }),
  )
  after_replace w (returned (sink, end), reader, f) =
      let w' : World = record w { reader = reader; file_buffer = held_by sink w.file_buffer } in
      elim end [
        | flushed ↦ (stuck, w')
        | write_failed ↦ (failure, rrep_error o realloc_filebuffer file_name w')
        | regex_failed e ↦ (failure, print_regerror e w')
        | out_of_rounds ↦ (stuck, w')
      ]
  after_replace w (EachLine.starved, reader, f) = (stuck, record w { reader = reader })

  -- rewind and tmpfile, and replace_string to the temporary stream or to file_buffer.
  unfoldable pub rewrite : List ℕ → World → Exit × World
  unfolding after_replace start_sink
  rewrite bytes w = elim (start_sink alloc os.tmpfile w.file_buffer) [
    | none ↦ (failure, rrep_error o alloc_filebuffer file_name w)
    | some sink ↦
        after_replace w (replace_string E alloc o pattern r w.reader (opened bytes os.bad) sink)
  ]

  -- What follows backup_file: only its success lets process_file go on.
  unfoldable pub after_backup : List ℕ → Exit × World → Exit × World
  unfolding rewrite
  after_backup bytes (success, w) = rewrite bytes w
  after_backup bytes (failure, w) = (failure, w)
  after_backup bytes (aborted, w) = (aborted, w)
  after_backup bytes (stuck, w) = (stuck, w)

  -- The backup, where it is asked for, and what follows it.
  unfoldable pub save_and_rewrite : List ℕ → World → Exit × World
  unfolding backup_file after_backup
  save_and_rewrite bytes w =
      if o.backup then after_backup bytes (backup_file w) else rewrite bytes w

  -- What follows a scan that has found the pattern.
  unfoldable pub on_found : List ℕ → World → Exit × World
  unfolding save_and_rewrite
  on_found bytes w =
      if o.dry && not o.quiet
      then (success, print (listed file_name) w)
      else if o.prompt
      then if os.yesno
        then save_and_rewrite bytes (print (asked file_name) w)
        else (success, print (asked file_name) w)
      else save_and_rewrite bytes w

  -- What follows the scan.
  unfoldable pub after_scan : List ℕ → World → Ended Bool ScanEnd × Reader × File → Exit × World
  unfolding on_found
  after_scan bytes w (done found, reader, fp) =
      let w' : World = record w { reader = reader } in
      if found then on_found bytes w' else (success, w')
  after_scan bytes w (failed found e, reader, fp) =
      (failure, rrep_error o e file_name (record w { reader = reader }))
  after_scan bytes w (returned end, reader, fp) =
      let w' : World = record w { reader = reader } in
      elim end [
        | binary_file ↦ (success, w')
        | scan_regerror e ↦ (failure, print_regerror e w')
        | scan_stuck ↦ (stuck, w')
      ]
  after_scan bytes w (EachLine.starved, reader, fp) = (stuck, record w { reader = reader })

  -- process_file. A name without a file cannot be opened.
  unfoldable pub process_file : World → Exit × World
  unfolding scan_file after_scan
  process_file w = elim (if os.readable then w.files file_name else none) [
    | none ↦ (failure, rrep_error o open_read file_name w)
    | some bytes ↦ after_scan bytes w (scan_file w (opened bytes os.bad))
  ]
