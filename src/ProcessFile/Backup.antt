-- ===== src/ProcessFile/Backup.antt =====
-- process_file with backups never loses the old content of the file.
use rrep.Base.{
  ◌≡◌, ◌≢◌, refl, ◌∙◌, ℕ, ◌⊎◌, inl, inr, Bool, true, false, not, ◌&&◌, Option, none, some, List, ap,
  if_both, Option-cases,
}
use rrep.Options.{Options}
use rrep.Messages.{ErrCode}
use rrep.Bufferio.{File, Reader}
use rrep.Pattern.{Engine, Pattern}
use rrep.Replacement.{Replace}
use rrep.EachLine.{Ended, done, returned, failed, starved}
use rrep.World.{
  Name, Files, World, Os, Exit, success, aborted, rrep_error, ScanEnd, binary_file, scan_regerror,
  scan_stuck,
}
use rrep.ProcessFile.{
  after_backup, backup_file, save_and_rewrite, on_found, after_scan, process_file,
}
use rrep.ProcessFile.Effects.{
  rrep_error_files, content_read, process_file_unread, process_file_read,
}
use rrep.ProcessFile.Others.{rewrite_other}

module _ (E : Engine) (alloc : ℕ → Bool) (os : Os) (o : Options) (pattern : Pattern E) (r : Replace)
    (relative_path : Option Name) (file_name : Name) where
  -- What copy_file_preserving is documented to do: the destination holds what the source held.
  abbrev pub CopiesContent : Type 0
  CopiesContent =
      (files files' : Files) (from to : Name)
      → os.copy_file_preserving files from to ≡ some files'
      → files' to ≡ files from

  module _ (b : Name) (named : os.find_backup_file_name file_name ≡ some b)
      (elsewhere : b ≢ file_name) (copies : CopiesContent) (backed : o.backup ≡ true)
      (backups : os.no_backups ≡ false) where
    -- The file or its backup has the content that the file had.
    abbrev pub IsSafe : World → Exit × World → Type 0
    IsSafe w x = (x.1.files file_name ≡ w.files file_name) ⊎ (x.1.files b ≡ w.files file_name)

    error_safe :
        (e : ErrCode) (w : World) → (rrep_error o e file_name w).files file_name ≡ w.files file_name
    error_safe e w = rw (rrep_error_files o e file_name w)

    copied-IsSafe :
        (bytes : List ℕ) (w : World) (files : Files)
        → os.copy_file_preserving w.files file_name b ≡ some files
        → IsSafe w (
            after_backup E alloc os o pattern r relative_path file_name bytes
              (success, record w { files = files }))
    unfolding after_backup
    copied-IsSafe bytes w files c = inr (
        rewrite_other E alloc os o pattern r relative_path file_name b elsewhere bytes
          (record w { files = files })
        ∙ copies w.files files file_name b c)

    backup-IsSafe :
        (bytes : List ℕ) (w : World) (x : Option Files)
        → os.copy_file_preserving w.files file_name b ≡ x
        → IsSafe w (
            after_backup E alloc os o pattern r relative_path file_name bytes
              (elim x [ none ↦ (aborted, w) | some files ↦ (success, record w { files = files }) ]))
    unfolding after_backup
    backup-IsSafe bytes w none c = inl refl
    backup-IsSafe bytes w (some files) c = copied-IsSafe bytes w files c

    backup_named :
        (w : World)
        → backup_file E alloc os o pattern r relative_path file_name w
          ≡ elim (os.copy_file_preserving w.files file_name b) [
            | none ↦ (aborted, w)
            | some files ↦ (success, record w { files = files })
          ]
    unfolding backup_file
    backup_named w = rw (backups, named)

    save_and_rewrite-IsSafe :
        (bytes : List ℕ) (w : World)
        → IsSafe w (save_and_rewrite E alloc os o pattern r relative_path file_name bytes w)
    unfolding save_and_rewrite
    save_and_rewrite-IsSafe bytes w =
        if_both (IsSafe w) o.backup (λ _. rw (backup_named w) (backup-IsSafe bytes w _ refl))
          (λ e. absurd (let q = (rw backed at e) in cc))

    on_found-IsSafe :
        (bytes : List ℕ) (w : World)
        → IsSafe w (on_found E alloc os o pattern r relative_path file_name bytes w)
    unfolding on_found
    on_found-IsSafe bytes w =
        if_both (IsSafe w) (o.dry && not o.quiet) (λ _. inl refl)
          (λ _.
            if_both (IsSafe w) o.prompt
              (λ _.
                if_both (IsSafe w) os.yesno (λ _. save_and_rewrite-IsSafe bytes _) (λ _. inl refl))
              (λ _. save_and_rewrite-IsSafe bytes w))

    after_scan-IsSafe :
        (bytes : List ℕ) (w : World) (x : Ended Bool ScanEnd × Reader × File)
        → IsSafe w (after_scan E alloc os o pattern r relative_path file_name bytes w x)
    unfolding after_scan
    after_scan-IsSafe bytes w (done true, reader, fp) = on_found-IsSafe bytes _
    after_scan-IsSafe bytes w (done false, reader, fp) = inl refl
    after_scan-IsSafe bytes w (failed found e, reader, fp) = inl (error_safe e _)
    after_scan-IsSafe bytes w (returned binary_file, reader, fp) = inl refl
    after_scan-IsSafe bytes w (returned (scan_regerror e), reader, fp) = inl refl
    after_scan-IsSafe bytes w (returned scan_stuck, reader, fp) = inl refl
    after_scan-IsSafe bytes w (starved, reader, fp) = inl refl

    -- With OPT_BACKUP and a backup method, where the backup has a name of its own and
    -- copy_file_preserving copies: however process_file ends, the file or its backup has the content
    -- that the file had.
    pub process_file-IsSafe :
        (w : World) → IsSafe w (process_file E alloc os o pattern r relative_path file_name w)
    process_file-IsSafe w =
        elim (Option-cases (content_read E alloc os o pattern r relative_path file_name w)) [
          | inl e ↦ inl (
              ap (λ files. files file_name)
                (process_file_unread E alloc os o pattern r relative_path file_name w e))
          | inr (bytes, e) ↦
              rw (process_file_read E alloc os o pattern r relative_path file_name w bytes e)
                (after_scan-IsSafe bytes w _)
        ]
