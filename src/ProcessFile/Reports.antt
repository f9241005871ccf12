-- ===== src/ProcessFile/Reports.antt =====
-- A call of process_file that succeeds has reported nothing.
use rrep.Base.{
  ◌≡◌, refl, ◌∙◌, ℕ, inl, inr, Bool, true, false, Option, none, List, ◌&&◌, Bool-cases, if_both,
  option_both, ltb, length, not, if◌then◌else◌,
}
use rrep.Options.{Options}
use rrep.Bufferio.{File, Reader}
use rrep.Pattern.{Engine, Pattern}
use rrep.Replacement.{Replace}
use rrep.EachLine.{Ended, done, returned, failed, starved}
use rrep.Replace.{
  Sink, stream, buffered, LineEnd, flushed, write_failed, regex_failed, out_of_rounds,
}
use rrep.World.{
  Name, World, Os, Exit, success, failure, aborted, stuck, ScanEnd, binary_file, scan_regerror,
  scan_stuck, CopyEnd, copied, copy_failed, copy_stuck,
}
use rrep.ProcessFile.{
  after_copy, after_backup, start_sink, confirm, backup_file, write_back, after_replace, rewrite,
  save_and_rewrite, on_found, after_scan, process_file,
}

-- With success, nothing was reported.
abbrev pub Silent : World → Exit × World → Type 0
Silent w (success, w') = w'.reported ≡ w.reported
Silent w (failure, w') = Unit
Silent w (aborted, w') = Unit
Silent w (stuck, w') = Unit

module _ (E : Engine) (alloc : ℕ → Bool) (os : Os) (o : Options) (pattern : Pattern E) (r : Replace)
    (relative_path : Option Name) (file_name : Name) where
  confirm-Silent :
      (w : World) → (confirm E alloc os o pattern r relative_path file_name w).reported ≡ w.reported
  unfolding confirm
  confirm-Silent w = elim (Bool-cases o.quiet) [ inl h ↦ rw h | inr h ↦ rw h ]

  after_copy-Silent :
      (w : World) (x : CopyEnd × Reader × List ℕ)
      → Silent w (after_copy E alloc os o pattern r relative_path file_name w x)
  unfolding after_copy
  after_copy-Silent w (copied, reader, out) = confirm-Silent _
  after_copy-Silent w (copy_failed e, reader, out) = tt
  after_copy-Silent w (copy_stuck, reader, out) = tt

  write_back-Silent :
      (sink : Sink) (w : World)
      → Silent w (write_back E alloc os o pattern r relative_path file_name sink w)
  unfolding write_back
  write_back-Silent (stream bytes) w =
      if_both (Silent w) (not os.writable) (λ _. tt) (λ _. after_copy-Silent w _)
  write_back-Silent (buffered size bytes) w =
      if_both (Silent w) (not os.writable) (λ _. tt)
        (λ _. if_both (Silent w) (ltb os.room (length bytes)) (λ _. tt) (λ _. confirm-Silent _))

  after_replace-Silent :
      (w : World) (x : Ended Sink (Sink × LineEnd) × Reader × File)
      → Silent w (after_replace E alloc os o pattern r relative_path file_name w x)
  unfolding after_replace
  after_replace-Silent w (done sink, reader, f) = write_back-Silent sink _
  after_replace-Silent w (failed sink e, reader, f) = tt
  after_replace-Silent w (returned (sink, flushed), reader, f) = tt
  after_replace-Silent w (returned (sink, write_failed), reader, f) = tt
  after_replace-Silent w (returned (sink, regex_failed e), reader, f) = tt
  after_replace-Silent w (returned (sink, out_of_rounds), reader, f) = tt
  after_replace-Silent w (starved, reader, f) = tt

  rewrite-Silent :
      (bytes : List ℕ) (w : World)
      → Silent w (rewrite E alloc os o pattern r relative_path file_name bytes w)
  unfolding rewrite
  rewrite-Silent bytes w =
      option_both (Silent w) (start_sink alloc os.tmpfile w.file_buffer) tt
        (λ sink e. after_replace-Silent w _)

  backup_file-Silent :
      (w : World) → Silent w (backup_file E alloc os o pattern r relative_path file_name w)
  unfolding backup_file
  backup_file-Silent w =
      if_both (Silent w) os.no_backups (λ _. refl)
        (λ _. option_both (Silent w) (os.find_backup_file_name file_name) tt (λ b e.
          option_both (Silent w) (os.copy_file_preserving w.files file_name b) tt
            (λ files c. refl)))

  joined : (w v : World) (x : Exit × World) → v.reported ≡ w.reported → Silent v x → Silent w x
  joined w v (success, u) h k = k ∙ h
  joined w v (failure, u) h k = tt
  joined w v (aborted, u) h k = tt
  joined w v (stuck, u) h k = tt

  after_backup-Silent :
      (bytes : List ℕ) (w : World) (x : Exit × World)
      → Silent w x
      → Silent w (after_backup E alloc os o pattern r relative_path file_name bytes x)
  unfolding after_backup
  after_backup-Silent bytes w (success, v) h = joined w v _ h (rewrite-Silent bytes v)
  after_backup-Silent bytes w (failure, v) h = tt
  after_backup-Silent bytes w (aborted, v) h = tt
  after_backup-Silent bytes w (stuck, v) h = tt

  save_and_rewrite-Silent :
      (bytes : List ℕ) (w : World)
      → Silent w (save_and_rewrite E alloc os o pattern r relative_path file_name bytes w)
  unfolding save_and_rewrite
  save_and_rewrite-Silent bytes w =
      if_both (Silent w) o.backup
        (λ _.
          after_backup-Silent bytes w (backup_file E alloc os o pattern r relative_path file_name w)
            (backup_file-Silent w))
        (λ _. rewrite-Silent bytes w)

  on_found-Silent :
      (bytes : List ℕ) (w : World)
      → Silent w (on_found E alloc os o pattern r relative_path file_name bytes w)
  unfolding on_found
  on_found-Silent bytes w =
      if_both (Silent w) (o.dry && not o.quiet) (λ _. refl)
        (λ _.
          if_both (Silent w) o.prompt
            (λ _. if_both (Silent w) os.yesno (λ _. save_and_rewrite-Silent bytes _) (λ _. refl))
            (λ _. save_and_rewrite-Silent bytes w))

  after_scan-Silent :
      (bytes : List ℕ) (w : World) (x : Ended Bool ScanEnd × Reader × File)
      → Silent w (after_scan E alloc os o pattern r relative_path file_name bytes w x)
  unfolding after_scan
  after_scan-Silent bytes w (done true, reader, fp) = on_found-Silent bytes _
  after_scan-Silent bytes w (done false, reader, fp) = refl
  after_scan-Silent bytes w (failed found e, reader, fp) = tt
  after_scan-Silent bytes w (returned binary_file, reader, fp) = refl
  after_scan-Silent bytes w (returned (scan_regerror e), reader, fp) = tt
  after_scan-Silent bytes w (returned scan_stuck, reader, fp) = tt
  after_scan-Silent bytes w (starved, reader, fp) = tt

  -- A call of process_file that ends with SUCCESS has reported no error.
  pub process_file-Silent :
      (w : World) → Silent w (process_file E alloc os o pattern r relative_path file_name w)
  unfolding process_file
  process_file-Silent w =
      option_both (Silent w) (if os.readable then w.files file_name else none) tt
        (λ bytes e. after_scan-Silent bytes w _)
