-- ===== src/ProcessFile/Binary.antt =====
-- process_file leaves binary files alone, unless OPT_BINARY is set.
use mathlib.Core.Bool.{or-false, or_assoc}
use mathlib.Core.Path.{subst}
use rrep.Base.{
  ℕ, ◌≡◌, ◌≤◌, refl, sym, ap, ◌∙◌, inl, inr, Bool, true, false, ◌||◌, Option, some, List, [], ◌∷◌,
  ◌==◌, Bool-cases, if_both,
}
use rrep.Options.{Options}
use rrep.Messages.{ErrCode, open_read}
use rrep.Bufferio.{File, Reader, opened, delimits}
use rrep.Bufferio.Lines.{lines, cons_line}
use rrep.EachLine.{Step, next, return, Ended, done, returned, failed, starved, fold_lines}
use rrep.EachLine.Refine.{Over}
use rrep.EachLine.AnyFile.{read_lines, whole_file-Over}
use rrep.Pattern.{Engine, Pattern}
use rrep.Replacement.{Replace}
use rrep.World.{
  Name, World, Os, rrep_error, has_nul, ScanEnd, binary_file, scan_regerror, scan_stuck,
}
use rrep.ProcessFile.{scan_line, scan_goes_on, scan_file, after_scan, process_file}
use rrep.ProcessFile.Effects.{process_file_read}

-- A NUL in one of the lines.
unfoldable any_nul : List (List ℕ) → Bool
any_nul [] = false
any_nul (l ∷ ls) = has_nul l || any_nul ls

any_nul-cons_line : (c : ℕ) (ls : List (List ℕ)) → any_nul (cons_line c ls) ≡ (c == 0 || any_nul ls)
unfolding any_nul has_nul
any_nul-cons_line c [] = simp (or-false)
any_nul-cons_line c (l ∷ ls) = or_assoc (c == 0) (has_nul l) (any_nul ls)

-- A NUL of the file stands in one of its lines.
any_nul-lines : (binary : Bool) (xs : List ℕ) → any_nul (lines binary xs) ≡ has_nul xs
unfolding any_nul lines has_nul
any_nul-lines binary [] = refl
any_nul-lines binary (c ∷ cs) = elim (Bool-cases (delimits binary c)) [
  | inl d ↦ rw d (rw (any_nul-lines binary cs) (simp (or-false)))
  | inr d ↦
      rw d (any_nul-cons_line c (lines binary cs) ∙ ap (λ b. c == 0 || b) (any_nul-lines binary cs))
]

-- The scan does not come to the end of the file.
abbrev Leaves : Ended Bool ScanEnd → Type 0
Leaves (done found) = ⊥
Leaves (returned x) = Unit
Leaves (failed found e) = Unit
Leaves starved = Unit

step-Leaves :
    (x : Step Bool ScanEnd) (again : Bool → Ended Bool ScanEnd)
    → ((found : Bool) → Leaves (again found))
    → Leaves (elim x [ next found ↦ again found | return y ↦ returned y ])
step-Leaves (next found) again h = h found
step-Leaves (return y) again h = tt

-- No file has changed, and nothing was printed.
pub record Untouched (w v : World) : Type 0 where
  pub files : v.files ≡ w.files
  pub printed : v.printed ≡ w.printed

module _ (E : Engine) (alloc : ℕ → Bool) (os : Os) (o : Options) (pattern : Pattern E) (r : Replace)
    (relative_path : Option Name) (file_name : Name) (text : o.binary ≡ false) where
  abbrev scanned : List (List ℕ) → Bool → Ended Bool ScanEnd
  scanned =
      fold_lines (scan_goes_on E alloc os o pattern r relative_path file_name)
        (scan_line E alloc os o pattern r relative_path file_name)

  goes_on :
      (found : Bool) → scan_goes_on E alloc os o pattern r relative_path file_name found ≡ true
  goes_on true = rw text
  goes_on false = refl

  scan_line_nul :
      (line : List ℕ) (found : Bool)
      → has_nul line ≡ true
      → scan_line E alloc os o pattern r relative_path file_name line found ≡ return binary_file
  unfolding scan_line
  scan_line_nul line found h = rw (text, h)

  scanned-Leaves :
      (ls : List (List ℕ)) (found : Bool) → any_nul ls ≡ true → Leaves (scanned ls found)
  unfolding fold_lines any_nul
  scanned-Leaves [] found h = absurd cc
  scanned-Leaves (l ∷ ls) found h =
      rw (goes_on found, fold_lines)
        (elim (Bool-cases (has_nul l)) [
          | inl b ↦ rw (scan_line_nul l found b) tt
          | inr b ↦
              step-Leaves (scan_line E alloc os o pattern r relative_path file_name l found)
                (scanned ls) (λ found'. scanned-Leaves ls found' (rw b at h))
        ])

  Over-Leaves :
      (ls : List (List ℕ)) (f₀ : File) (x : Ended Bool ScanEnd × Reader × File)
      → Over
          (scan_goes_on E alloc os o pattern r relative_path file_name)
          (scan_line E alloc os o pattern r relative_path file_name)
          o.binary
          alloc
          ls
          f₀
          false
          x
      → any_nul ls ≡ true
      → Leaves x.0
  Over-Leaves ls f₀ (done found, reader, fp) (e, c, b, big) h =
      subst Leaves (sym e) (scanned-Leaves ls false h)
  Over-Leaves ls f₀ (returned y, reader, fp) q h = tt
  Over-Leaves ls f₀ (failed found e, reader, fp) q h = tt
  Over-Leaves ls f₀ (starved, reader, fp) q h = tt

  report-Untouched : (e : ErrCode) (w : World) → Untouched w (rrep_error o e file_name w)
  report-Untouched e w =
      if_both (Untouched w) o.no_messages (λ _. record { files = refl; printed = refl })
        (λ _. record { files = refl; printed = refl })

  after_scan-Untouched :
      (bytes : List ℕ) (w : World) (x : Ended Bool ScanEnd × Reader × File)
      → Leaves x.0
      → Untouched w (after_scan E alloc os o pattern r relative_path file_name bytes w x).1
  unfolding after_scan
  after_scan-Untouched bytes w (done found, reader, fp) h = absurd h
  after_scan-Untouched bytes w (failed found e, reader, fp) h =
      let u = report-Untouched e (record w { reader = reader }) in
      record { files = u.files; printed = u.printed }
  after_scan-Untouched bytes w (returned binary_file, reader, fp) h = record {
    files = refl;
    printed = refl;
  }
  after_scan-Untouched bytes w (returned (scan_regerror e), reader, fp) h = record {
    files = refl;
    printed = refl;
  }
  after_scan-Untouched bytes w (returned scan_stuck, reader, fp) h = record {
    files = refl;
    printed = refl;
  }
  after_scan-Untouched bytes w (starved, reader, fp) h = record { files = refl; printed = refl }

  binary_lines :
      (stale : ℕ) (bytes : List ℕ)
      → has_nul bytes ≡ true
      → any_nul (read_lines o.binary stale bytes) ≡ true
  unfolding read_lines has_nul
  binary_lines stale [] h = absurd cc
  binary_lines stale (c ∷ cs) h = any_nul-lines o.binary (c ∷ cs) ∙ h

  -- Without OPT_BINARY, with a buffer of at least two bytes: where the file holds a NUL, process_file
  -- changes no file and prints nothing, whatever the other options are, wherever the pattern stands
  -- and whatever the system answers.
  pub process_file_binary :
      (w : World) (bytes : List ℕ)
      → 2 ≤ w.reader.buffer_size
      → w.files file_name ≡ some bytes
      → has_nul bytes ≡ true
      → Untouched w (process_file E alloc os o pattern r relative_path file_name w).1
  unfolding scan_file process_file
  process_file_binary w bytes big e h = elim (Bool-cases os.readable) [
    | inr n ↦ unread n
    | inl y ↦
        rw (process_file_read E alloc os o pattern r relative_path file_name w bytes (rw y e)) (
          after_scan-Untouched bytes w _ (
            Over-Leaves (read_lines o.binary (w.reader.buffer 0) bytes) (opened bytes os.bad) _
              (whole_file-Over (scan_goes_on E alloc os o pattern r relative_path file_name)
                (scan_line E alloc os o pattern r relative_path file_name) o.binary alloc w.reader
                (opened bytes os.bad) false big refl refl)
              (binary_lines (w.reader.buffer 0) bytes h)))
  ]
    where
      unread :
          os.readable ≡ false
          → Untouched w (process_file E alloc os o pattern r relative_path file_name w).1
      unread n = rw (n, process_file) (report-Untouched open_read w)
