-- ===== src/ProcessFile/Ends.antt =====
-- process_file ends.
use mathlib.Core.Path.{subst}
use rrep.Base.{
  ℕ, ◌+◌, ◌≡◌, ◌≢◌, ◌≤◌, ◌<◌, refl, sym, Bool, true, false, not, ◌&&◌, Option, List, [], arith,
  length, ltb, if_both, option_both, if◌then◌else◌, none,
}
use rrep.Options.{Options}
use rrep.Bufferio.{File, Reader, opened}
use rrep.EachLine.{Step, Ended, done, returned, failed, starved}
use rrep.EachLine.Size.{whole_file-Large}
use rrep.EachLine.AnyFile.{read_lines, whole_file-Over}
use rrep.Pattern.{Engine, Pattern}
use rrep.Pattern.Regex.{IsLawful}
use rrep.Replacement.{Replace}
use rrep.Replace.{
  Sink, stream, buffered, LineEnd, flushed, write_failed, regex_failed, out_of_rounds, line_step,
  replace_string,
}
use rrep.Replace.Ends.{FileEnds, replace_string-FileEnds}
use rrep.Messages.{ErrCode, alloc_backup}
use rrep.World.{
  rrep_error, Name, World, Os, Exit, success, failure, aborted, stuck, ScanEnd, binary_file,
  scan_regerror, scan_stuck, CopyEnd, copied, copy_failed, copy_stuck,
}
use rrep.ProcessFile.{
  confirm, start_sink, scan_line, scan_goes_on, scan_file, after_copy, backup_file, write_back,
  after_replace, rewrite, after_backup, save_and_rewrite, on_found, after_scan, process_file,
}
use rrep.ProcessFile.ScanEnds.{ScanInTime, Over-ScanInTime}
use rrep.ProcessFile.CopyBack.{Copies, copy_back-Copies, copy_back-Large}

-- The call has returned, or the program has ended inside it, and the buffer has at least two bytes.
pub record InTime (x : Exit × World) : Type 0 where
  pub not_stuck : x.0 ≢ stuck
  pub large : 2 ≤ x.1.reader.buffer_size

in_success : (w : World) → 2 ≤ w.reader.buffer_size → InTime (success, w)
in_success w big = record { not_stuck = λ e. cc; large = big }

in_failure : (w : World) → 2 ≤ w.reader.buffer_size → InTime (failure, w)
in_failure w big = record { not_stuck = λ e. cc; large = big }

in_abort : (w : World) → 2 ≤ w.reader.buffer_size → InTime (aborted, w)
in_abort w big = record { not_stuck = λ e. cc; large = big }

-- A report leaves the buffer as it is.
in_report :
    (o : Options) (e : ErrCode) (name : Name) (w : World)
    → 2 ≤ w.reader.buffer_size
    → InTime (failure, rrep_error o e name w)
in_report o e name w big =
    if_both (λ (v : World). InTime (failure, v)) o.no_messages (λ _. in_failure _ big)
      (λ _. in_failure _ big)

module _ (E : Engine) (lawful : IsLawful E) (alloc : ℕ → Bool) (os : Os) (o : Options)
    (pattern : Pattern E) (r : Replace) (relative_path : Option Name) (file_name : Name)
    (pos : 0 < length pattern.string) where
  confirm-InTime :
      (w : World)
      → 2 ≤ w.reader.buffer_size
      → InTime (success, confirm E alloc os o pattern r relative_path file_name w)
  unfolding confirm
  confirm-InTime w big =
      if_both (λ (v : World). InTime (success, v)) o.quiet (λ _. in_success _ big)
        (λ _. in_success _ big)

  after_copy-InTime :
      (w : World) (bytes : List ℕ) (bad : Bool) (x : CopyEnd × Reader × List ℕ)
      → Copies os.room bytes bad x
      → 2 ≤ x.1.buffer_size
      → InTime (after_copy E alloc os o pattern r relative_path file_name w x)
  unfolding after_copy
  after_copy-InTime w bytes bad (copied, reader, out) c big = confirm-InTime _ big
  after_copy-InTime w bytes bad (copy_failed e, reader, out) c big = in_report o e file_name _ big
  after_copy-InTime w bytes bad (copy_stuck, reader, out) c big = absurd c

  write_back-InTime :
      (sink : Sink) (w : World)
      → 2 ≤ w.reader.buffer_size
      → InTime (write_back E alloc os o pattern r relative_path file_name sink w)
  unfolding write_back
  write_back-InTime (stream bytes) w big =
      if_both InTime (not os.writable) (λ _. in_report o _ file_name _ big)
        (λ _.
          after_copy-InTime w bytes os.tmp_bad _
            (copy_back-Copies os.room (length bytes + 2) w.reader (opened bytes os.tmp_bad) []
              (omega arith) refl (λ q. absurd cc) (omega arith) (λ q. omega arith))
            (copy_back-Large os.room 2 (length bytes + 2) w.reader (opened bytes os.tmp_bad) []
              big))
  write_back-InTime (buffered size bytes) w big =
      if_both InTime (not os.writable) (λ _. in_report o _ file_name _ big)
        (λ _.
          if_both InTime (ltb os.room (length bytes)) (λ _. in_report o _ file_name _ big)
            (λ _. confirm-InTime _ big))

  abbrev Out : Type 0
  Out = Ended Sink (Sink × LineEnd) × Reader × File

  after_replace-InTime :
      (w : World) (bad : Bool) (x : Out)
      → FileEnds alloc bad x.0
      → 2 ≤ x.1.buffer_size
      → InTime (after_replace E alloc os o pattern r relative_path file_name w x)
  unfolding after_replace
  after_replace-InTime w bad (done s, reader, f) e big = write_back-InTime s _ big
  after_replace-InTime w bad (failed s x, reader, f) e big = in_report o x file_name _ big
  after_replace-InTime w bad (returned (s, flushed), reader, f) e big = absurd e
  after_replace-InTime w bad (returned (s, write_failed), reader, f) e big =
      in_report o _ file_name _ big
  after_replace-InTime w bad (returned (s, regex_failed x), reader, f) e big = in_failure _ big
  after_replace-InTime w bad (returned (s, out_of_rounds), reader, f) e big = absurd e
  after_replace-InTime w bad (starved, reader, f) e big = absurd e

  module _ (bytes : List ℕ) where
    rewrite-InTime :
        (w : World)
        → 2 ≤ w.reader.buffer_size
        → InTime (rewrite E alloc os o pattern r relative_path file_name bytes w)
    unfolding rewrite replace_string
    rewrite-InTime w big =
        option_both InTime (start_sink alloc os.tmpfile w.file_buffer)
          (in_report o _ file_name _ big)
          (λ sink e.
            after_replace-InTime w os.bad _
              (replace_string-FileEnds E lawful alloc o pattern r pos w.reader (opened bytes os.bad)
                sink big refl refl)
              (whole_file-Large (λ _. true) (line_step E alloc o pattern r) o.binary alloc 2
                w.reader (opened bytes os.bad) sink big))

    -- The backup leaves the buffer as it is.
    pub record Backed (w : World) (x : Exit × World) : Type 0 where
      pub in_time : x.0 ≢ stuck
      pub same_reader : x.1.reader ≡ w.reader

    error_reader : (w : World) → (rrep_error o alloc_backup file_name w).reader ≡ w.reader
    error_reader w =
        if_both (λ (v : World). v.reader ≡ w.reader) o.no_messages (λ _. refl) (λ _. refl)

    backup_file-Backed :
        (w : World) → Backed w (backup_file E alloc os o pattern r relative_path file_name w)
    unfolding backup_file
    backup_file-Backed w =
        if_both (Backed w) os.no_backups (λ _. record { in_time = λ e. cc; same_reader = refl })
          (λ _.
            option_both (Backed w) (os.find_backup_file_name file_name)
              (record { in_time = λ e. cc; same_reader = error_reader w })
              (λ b e.
                option_both (Backed w) (os.copy_file_preserving w.files file_name b)
                  (record { in_time = λ e. cc; same_reader = refl })
                  (λ files c. record { in_time = λ e. cc; same_reader = refl })))

    same_size :
        (w v : World) → v.reader ≡ w.reader → 2 ≤ w.reader.buffer_size → 2 ≤ v.reader.buffer_size
    same_size w v e = subst (λ (reader : Reader). 2 ≤ reader.buffer_size) (sym e)

    after_backup-InTime :
        (w : World) (x : Exit × World)
        → 2 ≤ w.reader.buffer_size
        → Backed w x
        → InTime (after_backup E alloc os o pattern r relative_path file_name bytes x)
    unfolding after_backup
    after_backup-InTime w (success, v) big b = rewrite-InTime v (same_size w v b.same_reader big)
    after_backup-InTime w (failure, v) big b = in_failure v (same_size w v b.same_reader big)
    after_backup-InTime w (aborted, v) big b = in_abort v (same_size w v b.same_reader big)
    after_backup-InTime w (stuck, v) big b = absurd (b.in_time refl)

    save_and_rewrite-InTime :
        (w : World)
        → 2 ≤ w.reader.buffer_size
        → InTime (save_and_rewrite E alloc os o pattern r relative_path file_name bytes w)
    unfolding save_and_rewrite
    save_and_rewrite-InTime w big =
        if_both InTime o.backup
          (λ _.
            after_backup-InTime w (backup_file E alloc os o pattern r relative_path file_name w) big
              (backup_file-Backed w))
          (λ _. rewrite-InTime w big)

    on_found-InTime :
        (w : World)
        → 2 ≤ w.reader.buffer_size
        → InTime (on_found E alloc os o pattern r relative_path file_name bytes w)
    unfolding on_found
    on_found-InTime w big =
        if_both InTime (o.dry && not o.quiet) (λ _. in_success _ big)
          (λ _.
            if_both InTime o.prompt
              (λ _.
                if_both InTime os.yesno (λ _. save_and_rewrite-InTime _ big)
                  (λ _. in_success _ big))
              (λ _. save_and_rewrite-InTime w big))

    after_scan-InTime :
        (w : World) (x : Ended Bool ScanEnd × Reader × File)
        → ScanInTime x.0
        → 2 ≤ x.1.buffer_size
        → InTime (after_scan E alloc os o pattern r relative_path file_name bytes w x)
    unfolding after_scan
    after_scan-InTime w (done true, reader, fp) h big = on_found-InTime _ big
    after_scan-InTime w (done false, reader, fp) h big = in_success _ big
    after_scan-InTime w (failed found e, reader, fp) h big = in_report o e file_name _ big
    after_scan-InTime w (returned binary_file, reader, fp) h big = in_success _ big
    after_scan-InTime w (returned (scan_regerror e), reader, fp) h big = in_failure _ big
    after_scan-InTime w (returned scan_stuck, reader, fp) h big = absurd h
    after_scan-InTime w (starved, reader, fp) h big = absurd h

    scan_file-InTime :
        (w : World)
        → 2 ≤ w.reader.buffer_size
        → InTime (
            after_scan E alloc os o pattern r relative_path file_name bytes w
              (scan_file E alloc os o pattern r relative_path file_name w (opened bytes os.bad)))
    unfolding scan_file
    scan_file-InTime w big =
        after_scan-InTime w _
          (Over-ScanInTime E lawful alloc os o pattern r relative_path file_name pos
            (read_lines o.binary (w.reader.buffer 0) bytes) (opened bytes os.bad) _
            (whole_file-Over goes_on line o.binary alloc w.reader (opened bytes os.bad) false big
              refl refl))
          (whole_file-Large goes_on line o.binary alloc 2 w.reader (opened bytes os.bad) false big)
      where
        goes_on : Bool → Bool
        goes_on = scan_goes_on E alloc os o pattern r relative_path file_name

        line : List ℕ → Bool → Step Bool ScanEnd
        line = scan_line E alloc os o pattern r relative_path file_name

  pub process_file-InTime :
      (w : World)
      → 2 ≤ w.reader.buffer_size
      → InTime (process_file E alloc os o pattern r relative_path file_name w)
  unfolding process_file
  process_file-InTime w big =
      option_both InTime (if os.readable then w.files file_name else none)
        (in_report o _ file_name _ big) (λ bytes e. scan_file-InTime bytes w big)
