-- ===== src/ProcessFile/Effects.antt =====
-- What process_file reads, and its dry runs.
use rrep.Base.{
  ◌≡◌, refl, ℕ, inl, inr, Bool, true, false, Option, none, some, List, Bool-cases, Option-cases,
  if◌then◌else◌,
}
use rrep.Options.{Options}
use rrep.Messages.{ErrCode}
use rrep.Bufferio.{File, Reader, opened}
use rrep.Pattern.{Engine, Pattern}
use rrep.Replacement.{Replace}
use rrep.EachLine.{Ended, done, returned, failed, starved}
use rrep.World.{Name, World, Os, rrep_error, ScanEnd, binary_file, scan_regerror, scan_stuck}
use rrep.ProcessFile.{on_found, after_scan, scan_file, process_file}

pub rrep_error_files :
    (o : Options) (e : ErrCode) (name : Name) (w : World) → (rrep_error o e name w).files ≡ w.files
rrep_error_files o e name w = elim (Bool-cases o.no_messages) [ inl h ↦ rw h | inr h ↦ rw h ]

module _ (E : Engine) (alloc : ℕ → Bool) (os : Os) (o : Options) (pattern : Pattern E) (r : Replace)
    (relative_path : Option Name) (file_name : Name) where
  -- The content that process_file reads: none if the file cannot be opened.
  abbrev pub content_read : World → Option (List ℕ)
  content_read w = if os.readable then w.files file_name else none

  pub process_file_unread :
      (w : World)
      → content_read w ≡ none
      → (process_file E alloc os o pattern r relative_path file_name w).1.files ≡ w.files
  unfolding process_file
  process_file_unread w e = rw (e, process_file) (rrep_error_files o _ file_name w)

  pub process_file_read :
      (w : World) (bytes : List ℕ)
      → content_read w ≡ some bytes
      → process_file E alloc os o pattern r relative_path file_name w
        ≡ after_scan E alloc os o pattern r relative_path file_name bytes w
            (scan_file E alloc os o pattern r relative_path file_name w (opened bytes os.bad))
  unfolding process_file
  process_file_read w bytes e = rw (e, process_file)

  after_scan_dry :
      (bytes : List ℕ) (w : World) (x : Ended Bool ScanEnd × Reader × File)
      → o.dry ≡ true
      → o.quiet ≡ false
      → (after_scan E alloc os o pattern r relative_path file_name bytes w x).1.files ≡ w.files
  unfolding after_scan on_found
  after_scan_dry bytes w (done true, reader, fp) d q = rw (d, q)
  after_scan_dry bytes w (done false, reader, fp) d q = refl
  after_scan_dry bytes w (failed found e, reader, fp) d q = rrep_error_files o e file_name _
  after_scan_dry bytes w (returned binary_file, reader, fp) d q = refl
  after_scan_dry bytes w (returned (scan_regerror e), reader, fp) d q = refl
  after_scan_dry bytes w (returned scan_stuck, reader, fp) d q = refl
  after_scan_dry bytes w (starved, reader, fp) d q = refl

  -- With OPT_DRY and without OPT_QUIET process_file changes no file, however it ends.
  pub process_file_dry :
      (w : World)
      → o.dry ≡ true
      → o.quiet ≡ false
      → (process_file E alloc os o pattern r relative_path file_name w).1.files ≡ w.files
  process_file_dry w d q = elim (Option-cases (content_read w)) [
    | inl e ↦ process_file_unread w e
    | inr (bytes, e) ↦ rw (process_file_read w bytes e) (after_scan_dry bytes w _ d q)
  ]
