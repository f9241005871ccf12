-- ===== src/ProcessFile/Rewrite.antt =====
-- process_file with fixed strings, where the system grants what is asked: the file is rewritten.
use mathlib.Core.List.{flat_map, flatten}
use rrep.Base.{
  ℕ, zero, ◌+◌, ◌≡◌, ◌≤◌, ◌<◌, refl, sym, ap, ◌∙◌, ◌⊎◌, inl, inr, Bool, true, false, Option, none,
  some, List, [], ◌++◌, arith, length, if◌then◌else◌, ge→ltb, Bool-cases,
}
use rrep.Options.{Options}
use rrep.Bufferio.{File, Reader, opened, init_buffer_size}
use rrep.Bufferio.Lines.{lines, flatten-lines}
use rrep.Bufferio.Calls.{Fresh}
use rrep.EachLine.{Ended, done, returned, failed, starved}
use rrep.EachLine.Refine.{Runs, whole_file-Runs}
use rrep.Pattern.{Engine, Pattern}
use rrep.Pattern.Fixed.{AnyPlace}
use rrep.Replacement.{Replace}
use rrep.Replace.{
  Sink, stream, buffered, written, LineEnd, flushed, write_failed, regex_failed, out_of_rounds,
  line_step, replace_string,
}
use rrep.Replace.Write.{InSize}
use rrep.Replace.Global.{replace_all}
use rrep.Replace.Text.{Text, OneLine, flat_map-replace_all}
use rrep.Replace.WholeFile.{EmitsFile, replace_string_fixed, lines-Text}
use rrep.World.{Name, World, Os, Exit, success, ScanEnd, CopyEnd, copied, copy_failed, copy_stuck}
use rrep.ProcessFile.{
  scan_goes_on, scan_line, scan_file, start_sink, confirm, write_back, after_copy, after_replace,
  rewrite, save_and_rewrite, on_found, after_scan, process_file,
}
use rrep.ProcessFile.CopyBack.{Copies, copy_back-Copies}
use rrep.ProcessFile.Effects.{process_file_read}
use rrep.ProcessFile.Fixed.{store_file_same, Scanned, scan-Scanned}

-- A system that grants what is asked.
pub record Calm (alloc : ℕ → Bool) (os : Os) : Type 0 where
  pub grants : (n : ℕ) → alloc n ≡ true
  pub readable : os.readable ≡ true
  pub good : os.bad ≡ false
  pub tmp_good : os.tmp_bad ≡ false
  pub writable : os.writable ≡ true

-- Options with which process_file rewrites a file in which it finds the pattern, without a question
-- and a backup.
pub record Plainly (o : Options) : Type 0 where
  pub fixed : o.fixed ≡ true
  pub no_dry : o.dry ≡ false
  pub no_prompt : o.prompt ≡ false
  pub no_backup : o.backup ≡ false

module _ (E : Engine) (alloc : ℕ → Bool) (os : Os) (o : Options) (pattern : Pattern E) (r : Replace)
    (relative_path : Option Name) (file_name : Name) (calm : Calm alloc os) (plainly : Plainly o)
    (any : AnyPlace o) (pos : 0 < length pattern.string) (one : OneLine pattern.string)
    (bytes : List ℕ) (some_bytes : 0 < length bytes) (text : Text bytes)
    (fits : length (replace_all pattern.string r.string zero bytes) ≤ os.room) where
  abbrev result : List ℕ
  result = replace_all pattern.string r.string zero bytes

  -- The call succeeds, and the file holds the text with each occurrence replaced.
  abbrev pub Holds : Exit × World → Type 0
  Holds x = (x.0 ≡ success) × (x.1.files file_name ≡ some result)

  bytes-Fresh : Fresh (opened bytes false)
  bytes-Fresh = record { some_bytes = some_bytes; not_eof = refl; no_error = refl }

  confirm_files :
      (w : World) → (confirm E alloc os o pattern r relative_path file_name w).files ≡ w.files
  unfolding confirm
  confirm_files w = elim (Bool-cases o.quiet) [ inl h ↦ rw h | inr h ↦ rw h ]

  written_file :
      (w : World) (out : List ℕ)
      → w.files file_name ≡ some out
      → out ≡ result
      → (confirm E alloc os o pattern r relative_path file_name w).files file_name ≡ some result
  written_file w out h e = rw (confirm_files w, h, e)

  after_copy-Holds :
      (w : World) (x : CopyEnd × Reader × List ℕ)
      → Copies os.room result os.tmp_bad x
      → Holds (after_copy E alloc os o pattern r relative_path file_name w x)
  unfolding after_copy
  after_copy-Holds w (copied, reader, out) e =
      (refl, written_file _ out (store_file_same w.files file_name out) e)
  after_copy-Holds w (copy_failed e, reader, out) (inl (q, b)) =
      absurd (let g = calm.tmp_good in cc)
  after_copy-Holds w (copy_failed e, reader, out) (inr (q, lt)) = absurd (omega (arith, fits))
  after_copy-Holds w (copy_stuck, reader, out) c = absurd c

  write_back-Holds :
      (sink : Sink) (w : World)
      → written sink ≡ result
      → 2 ≤ w.reader.buffer_size
      → Holds (write_back E alloc os o pattern r relative_path file_name sink w)
  unfolding write_back
  write_back-Holds (stream out) w e big =
      rw (calm.writable, e)
        (after_copy-Holds w _ (
          copy_back-Copies os.room (length result + 2) w.reader (opened result os.tmp_bad) []
            (omega arith) refl (λ q. absurd cc) (omega arith) (λ q. omega arith)))
  write_back-Holds (buffered size out) w e big =
      rw (calm.writable, e, ge→ltb os.room (length result) fits)
        (refl, written_file _ result (store_file_same w.files file_name result) refl)

  abbrev Out : Type 0
  Out = Ended Sink (Sink × LineEnd) × Reader × File

  after_replace-Holds :
      (w : World) (sink : Sink) (x : Out)
      → written sink ≡ []
      → EmitsFile alloc false sink result x.0
      → Runs
          (λ _. true)
          (line_step E alloc o pattern r)
          o.binary
          alloc
          bytes
          (opened bytes false)
          sink
          x
      → Holds (after_replace E alloc os o pattern r relative_path file_name w x)
  unfolding after_replace
  after_replace-Holds w sink (done s, reader, f) z (e, v) (q, c, b, big) =
      write_back-Holds s _ (e ∙ ap (λ t. t ++ result) z) big
  after_replace-Holds w sink (returned (s, write_failed), reader, f) z (n, p) q =
      absurd (let g = calm.grants n in cc)
  after_replace-Holds w sink (returned (s, flushed), reader, f) z e q = absurd e
  after_replace-Holds w sink (returned (s, regex_failed x), reader, f) z e q = absurd e
  after_replace-Holds w sink (returned (s, out_of_rounds), reader, f) z e q = absurd e
  after_replace-Holds w sink (failed s x, reader, f) z (inl (p, b)) q = absurd cc
  after_replace-Holds w sink (failed s x, reader, f) z (inr (p, (n, a))) q =
      absurd (let g = calm.grants n in cc)
  after_replace-Holds w sink (starved, reader, f) z e q = absurd e

  -- An output to begin with.
  start_sink-Begins :
      (tmp : Bool) (held : Option ℕ)
      → (sink : Sink) × (start_sink alloc tmp held ≡ some sink) × (written sink ≡ []) × InSize sink
  unfolding start_sink
  start_sink-Begins true held = (stream [], refl, refl, tt)
  start_sink-Begins false (some size) = (buffered size [], refl, refl, omega arith)
  start_sink-Begins false none =
      (buffered init_buffer_size [], rw (calm.grants init_buffer_size), refl, omega arith)

  rewrite_begins :
      (w : World) (sink : Sink)
      → start_sink alloc os.tmpfile w.file_buffer ≡ some sink
      → rewrite E alloc os o pattern r relative_path file_name bytes w
        ≡ after_replace E alloc os o pattern r relative_path file_name w
            (replace_string E alloc o pattern r w.reader (opened bytes false) sink)
  unfolding rewrite
  rewrite_begins w sink e = rw (rewrite, e, calm.good)

  rewrite-Holds :
      (w : World)
      → 2 ≤ w.reader.buffer_size
      → Holds (rewrite E alloc os o pattern r relative_path file_name bytes w)
  unfolding replace_string
  rewrite-Holds w big =
      let (sink, e, z, v) = start_sink-Begins os.tmpfile w.file_buffer in
      rw (rewrite_begins w sink e) (
        after_replace-Holds w sink _ z
          (replace_string_fixed E alloc o pattern r plainly.fixed any pos w.reader
            (opened bytes false) sink big bytes-Fresh v one text)
          (whole_file-Runs (λ _. true) (line_step E alloc o pattern r) o.binary alloc w.reader
            (opened bytes false) sink big bytes-Fresh))

  on_found_rewrites :
      (w : World)
      → on_found E alloc os o pattern r relative_path file_name bytes w
        ≡ rewrite E alloc os o pattern r relative_path file_name bytes w
  unfolding on_found save_and_rewrite
  on_found_rewrites w = rw (plainly.no_dry, plainly.no_prompt, plainly.no_backup)

  abbrev Scan : Type 0
  Scan = Ended Bool ScanEnd × Reader × File

  -- What follows a scan that agrees with the lines.
  after_scan_done :
      (w : World) (found : Bool) (reader : Reader) (f : File)
      → w.files file_name ≡ some bytes
      → 2 ≤ reader.buffer_size
      → (found ≡ true)
        ⊎ ((found ≡ false)
            × (flat_map (replace_all pattern.string r.string zero) (lines o.binary bytes)
                ≡ flatten (lines o.binary bytes)))
      → Holds (
          after_scan E alloc os o pattern r relative_path file_name bytes w (done found, reader, f))
  unfolding after_scan
  after_scan_done w found reader f h big (inl e) =
      rw (e, on_found_rewrites) (rewrite-Holds (record w { reader = reader }) big)
  after_scan_done w found reader f h big (inr (e, same)) = rw e (refl, h ∙ ap some unchanged)
    where
      unchanged : bytes ≡ result
      unchanged =
          sym (flatten-lines o.binary bytes)
          ∙ sym same
          ∙ flat_map-replace_all pattern.string r.string pos one o.binary bytes text

  abbrev ScanRuns : World → Scan → Type 0
  ScanRuns w x =
      Runs (scan_goes_on E alloc os o pattern r relative_path file_name)
        (scan_line E alloc os o pattern r relative_path file_name) o.binary alloc bytes
        (opened bytes false) false x

  after_scan-Holds :
      (w : World) (x : Scan)
      → w.files file_name ≡ some bytes
      → ScanRuns w x
      → Scanned E alloc os o pattern r relative_path file_name plainly.fixed any pos
          (lines o.binary bytes)
          false
      → Holds (after_scan E alloc os o pattern r relative_path file_name bytes w x)
  after_scan-Holds w (done found, reader, f) h (q, c, b, big) (inl e) =
      after_scan_done w found reader f h big (inl cc)
  after_scan-Holds w (done found, reader, f) h (q, c, b, big) (inr (e, same)) =
      after_scan_done w found reader f h big (inr (cc, same))
  after_scan-Holds w (failed t e, reader, f) h (c, inl (q, b)) s = absurd cc
  after_scan-Holds w (failed t e, reader, f) h (c, inr (q, (n, a))) s =
      absurd (let g = calm.grants n in cc)
  after_scan-Holds w (returned x, reader, f) h (q, c, b, big) (inl e) = absurd cc
  after_scan-Holds w (returned x, reader, f) h (q, c, b, big) (inr (e, same)) = absurd cc
  after_scan-Holds w (starved, reader, f) h (q, c, b, big) (inl e) = absurd cc
  after_scan-Holds w (starved, reader, f) h (q, c, b, big) (inr (e, same)) = absurd cc

  process_file_reads :
      (w : World)
      → w.files file_name ≡ some bytes
      → process_file E alloc os o pattern r relative_path file_name w
        ≡ after_scan E alloc os o pattern r relative_path file_name bytes w
            (scan_file E alloc os o pattern r relative_path file_name w (opened bytes false))
  process_file_reads w h =
      process_file_read E alloc os o pattern r relative_path file_name w bytes read
      ∙ ap
          (λ bad.
            after_scan E alloc os o pattern r relative_path file_name bytes w
              (scan_file E alloc os o pattern r relative_path file_name w (opened bytes bad)))
          calm.good
    where
      read : (if os.readable then w.files file_name else none) ≡ some bytes
      read = rw (calm.readable, h)

  -- Where the system grants what is asked, the options ask for fixed strings without -w and -x, and
  -- no dry run, prompt or backup, PATTERN is not empty and holds no newline, the buffer has at
  -- least two bytes, the file holds at least one byte and no NUL, and the device has room for the
  -- result: process_file succeeds, and the file then holds the text in which each occurrence of
  -- PATTERN, from left to right, is replaced.
  pub process_file_fixed :
      (w : World)
      → w.files file_name ≡ some bytes
      → 2 ≤ w.reader.buffer_size
      → Holds (process_file E alloc os o pattern r relative_path file_name w)
  unfolding scan_file
  process_file_fixed w h big = rw (process_file_reads w h) (
      after_scan-Holds w _ h
        (whole_file-Runs (scan_goes_on E alloc os o pattern r relative_path file_name)
          (scan_line E alloc os o pattern r relative_path file_name) o.binary alloc w.reader
          (opened bytes false) false big bytes-Fresh)
        (scan-Scanned E alloc os o pattern r relative_path file_name plainly.fixed any pos
          (lines o.binary bytes) (lines-Text o.binary bytes text)))
