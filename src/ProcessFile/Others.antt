-- ===== src/ProcessFile/Others.antt =====
-- process_file leaves the other files alone.
use rrep.Base.{
  ◌≡◌, ◌≢◌, refl, ◌∙◌, ℕ, inl, inr, Bool, true, false, Option, some, List, [], ◌∷◌, ◌&&◌,
  Bool-cases, if_both, option_both, Option-cases, ltb, ◌==◌, ==→eq, length, not,
}
use rrep.Options.{Options}
use rrep.Messages.{ErrCode}
use rrep.Bufferio.{File, Reader}
use rrep.Pattern.{Engine, Pattern}
use rrep.Replacement.{Replace}
use rrep.EachLine.{Ended, done, returned, failed, starved}
use rrep.Replace.{
  Sink, stream, buffered, LineEnd, flushed, write_failed, regex_failed, out_of_rounds,
}
use rrep.World.{
  Name, Files, same_name, store_file, World, Os, Exit, success, failure, aborted, stuck, rrep_error,
  ScanEnd, binary_file, scan_regerror, scan_stuck, CopyEnd, copied, copy_failed, copy_stuck,
}
use rrep.ProcessFile.{
  after_copy, after_backup, start_sink, confirm, backup_file, write_back, after_replace, rewrite,
  save_and_rewrite, on_found, after_scan, process_file,
}
use rrep.ProcessFile.Effects.{
  rrep_error_files, content_read, process_file_unread, process_file_read,
}

pub same_name→eq : (a b : Name) → same_name a b ≡ true → a ≡ b
unfolding same_name
same_name→eq [] [] h = refl
same_name→eq [] (d ∷ b) h = absurd cc
same_name→eq (c ∷ a) [] h = absurd cc
same_name→eq (c ∷ a) (d ∷ b) h = elim (Bool-cases (c == d)) [
  | inl e ↦ rw (==→eq c d e, same_name→eq a b (rw e at h))
  | inr e ↦ absurd (let q = (rw e at h) in cc)
]

pub store_file_other :
    (files : Files) (name other : Name) (bytes : List ℕ)
    → other ≢ name
    → store_file files name bytes other ≡ files other
unfolding store_file
store_file_other files name other bytes ne = elim (Bool-cases (same_name other name)) [
  | inl e ↦ absurd (ne (same_name→eq other name e))
  | inr e ↦ rw e
]

module _ (E : Engine) (alloc : ℕ → Bool) (os : Os) (o : Options) (pattern : Pattern E) (r : Replace)
    (relative_path : Option Name) (file_name : Name) where
  -- What copy_file_preserving is documented to do: it writes the destination and nothing else.
  abbrev pub CopiesOnly : Type 0
  CopiesOnly =
      (files files' : Files) (from to : Name)
      → os.copy_file_preserving files from to ≡ some files'
      → (other : Name) → other ≢ to
      → files' other ≡ files other

  -- A file other than the one that is processed.
  module _ (other : Name) (elsewhere : other ≢ file_name) where
    abbrev Kept : World → Exit × World → Type 0
    Kept w x = x.1.files other ≡ w.files other

    confirm_other :
        (w : World)
        → (confirm E alloc os o pattern r relative_path file_name w).files other ≡ w.files other
    unfolding confirm
    confirm_other w = elim (Bool-cases o.quiet) [ inl h ↦ rw h | inr h ↦ rw h ]

    error_other :
        (e : ErrCode) (w : World) → (rrep_error o e file_name w).files other ≡ w.files other
    error_other e w = rw (rrep_error_files o e file_name w)

    copied_other :
        (w : World) (x : CopyEnd × Reader × List ℕ)
        → (after_copy E alloc os o pattern r relative_path file_name w x).1.files other
          ≡ w.files other
    unfolding after_copy
    copied_other w (copied, reader, out) =
        confirm_other _ ∙ store_file_other w.files file_name other out elsewhere
    copied_other w (copy_failed e, reader, out) =
        error_other e _ ∙ store_file_other w.files file_name other out elsewhere
    copied_other w (copy_stuck, reader, out) =
        store_file_other w.files file_name other out elsewhere

    write_back_other :
        (sink : Sink) (w : World)
        → (write_back E alloc os o pattern r relative_path file_name sink w).1.files other
          ≡ w.files other
    unfolding write_back
    write_back_other (stream bytes) w =
        if_both (Kept w) (not os.writable) (λ _. error_other _ w) (λ _. copied_other w _)
    write_back_other (buffered size bytes) w =
        if_both (Kept w) (not os.writable) (λ _. error_other _ w)
          (λ _.
            if_both (Kept w) (ltb os.room (length bytes))
              (λ _. error_other _ _ ∙ store_file_other w.files file_name other _ elsewhere)
              (λ _. confirm_other _ ∙ store_file_other w.files file_name other bytes elsewhere))

    after_replace_other :
        (w : World) (x : Ended Sink (Sink × LineEnd) × Reader × File)
        → (after_replace E alloc os o pattern r relative_path file_name w x).1.files other
          ≡ w.files other
    unfolding after_replace
    after_replace_other w (done sink, reader, f) = write_back_other sink _
    after_replace_other w (failed sink e, reader, f) = error_other e _
    after_replace_other w (returned (sink, flushed), reader, f) = refl
    after_replace_other w (returned (sink, write_failed), reader, f) = error_other _ _
    after_replace_other w (returned (sink, regex_failed e), reader, f) = refl
    after_replace_other w (returned (sink, out_of_rounds), reader, f) = refl
    after_replace_other w (starved, reader, f) = refl

    pub rewrite_other :
        (bytes : List ℕ) (w : World)
        → (rewrite E alloc os o pattern r relative_path file_name bytes w).1.files other
          ≡ w.files other
    unfolding rewrite
    rewrite_other bytes w =
        option_both (Kept w) (start_sink alloc os.tmpfile w.file_buffer) (error_other _ w)
          (λ sink e. after_replace_other w _)

  -- A file other than the one that is processed that the backup spares.
  module _ (other : Name) (elsewhere : other ≢ file_name)
      (safe : o.backup ≡ true
        → (w : World)
        → (backup_file E alloc os o pattern r relative_path file_name w).1.files other
          ≡ w.files other) where
    after_backup_other :
        (bytes : List ℕ) (w : World) (x : Exit × World)
        → x.1.files other ≡ w.files other
        → (after_backup E alloc os o pattern r relative_path file_name bytes x).1.files other
          ≡ w.files other
    unfolding after_backup
    after_backup_other bytes w (success, w') h = rewrite_other other elsewhere bytes w' ∙ h
    after_backup_other bytes w (failure, w') h = h
    after_backup_other bytes w (aborted, w') h = h
    after_backup_other bytes w (stuck, w') h = h

    save_and_rewrite_other :
        (bytes : List ℕ) (w : World)
        → (save_and_rewrite E alloc os o pattern r relative_path file_name bytes w).1.files other
          ≡ w.files other
    unfolding save_and_rewrite
    save_and_rewrite_other bytes w =
        if_both (Kept other elsewhere w) o.backup
          (λ h.
            after_backup_other bytes w
              (backup_file E alloc os o pattern r relative_path file_name w) (safe h w))
          (λ _. rewrite_other other elsewhere bytes w)

    on_found_other :
        (bytes : List ℕ) (w : World)
        → (on_found E alloc os o pattern r relative_path file_name bytes w).1.files other
          ≡ w.files other
    unfolding on_found
    on_found_other bytes w =
        if_both (Kept other elsewhere w) (o.dry && not o.quiet) (λ _. refl)
          (λ _.
            if_both (Kept other elsewhere w) o.prompt
              (λ _.
                if_both (Kept other elsewhere w) os.yesno (λ _. save_and_rewrite_other bytes _)
                  (λ _. refl))
              (λ _. save_and_rewrite_other bytes w))

    after_scan_other :
        (bytes : List ℕ) (w : World) (x : Ended Bool ScanEnd × Reader × File)
        → (after_scan E alloc os o pattern r relative_path file_name bytes w x).1.files other
          ≡ w.files other
    unfolding after_scan
    after_scan_other bytes w (done true, reader, fp) = on_found_other bytes _
    after_scan_other bytes w (done false, reader, fp) = refl
    after_scan_other bytes w (failed found e, reader, fp) = error_other other elsewhere e _
    after_scan_other bytes w (returned binary_file, reader, fp) = refl
    after_scan_other bytes w (returned (scan_regerror e), reader, fp) = refl
    after_scan_other bytes w (returned scan_stuck, reader, fp) = refl
    after_scan_other bytes w (starved, reader, fp) = refl

    process_file_spares :
        (w : World)
        → (process_file E alloc os o pattern r relative_path file_name w).1.files other
          ≡ w.files other
    process_file_spares w =
        elim (Option-cases (content_read E alloc os o pattern r relative_path file_name w)) [
          | inl e ↦ rw (process_file_unread E alloc os o pattern r relative_path file_name w e)
          | inr (bytes, e) ↦
              rw (process_file_read E alloc os o pattern r relative_path file_name w bytes e)
                (after_scan_other bytes w _)
        ]

  -- Without OPT_BACKUP.
  pub process_file_alone :
      (other : Name) (w : World)
      → other ≢ file_name
      → o.backup ≡ false
      → (process_file E alloc os o pattern r relative_path file_name w).1.files other
        ≡ w.files other
  process_file_alone other w elsewhere h = process_file_spares other elsewhere (λ e. absurd cc) w

  -- A file other than the one that is processed and its backup.
  module _ (other : Name) (elsewhere : other ≢ file_name)
      (no_backup : (b : Name) → os.find_backup_file_name file_name ≡ some b → other ≢ b)
      (copies : CopiesOnly) where
    backup_file_other :
        (w : World)
        → (backup_file E alloc os o pattern r relative_path file_name w).1.files other
          ≡ w.files other
    unfolding backup_file
    backup_file_other w =
        if_both (Kept other elsewhere w) os.no_backups (λ _. refl)
          (λ _.
            option_both (Kept other elsewhere w) (os.find_backup_file_name file_name)
              (error_other other elsewhere _ w)
              (λ b e.
                option_both (Kept other elsewhere w) (os.copy_file_preserving w.files file_name b)
                  refl (λ files c. copies w.files files file_name b c other (no_backup b e))))

    -- However process_file ends, a file other than the processed one and its backup keeps its
    -- content, if copy_file_preserving writes its destination only.
    pub process_file_other :
        (w : World)
        → (process_file E alloc os o pattern r relative_path file_name w).1.files other
          ≡ w.files other
    process_file_other = process_file_spares other elsewhere (λ _. backup_file_other)
