-- ===== src/ProcessFile/ScanEnds.antt =====
-- The scan of process_file for the pattern ends.
use mathlib.Core.Path.{subst}
use rrep.Base.{
  ℕ, ◌≡◌, ◌<◌, refl, sym, inl, inr, Bool, true, false, not, ◌&&◌, Option, List, [], ◌∷◌, arith,
  length, Bool-cases,
}
use rrep.Options.{Options}
use rrep.Bufferio.{File, Reader}
use rrep.EachLine.{Step, next, return, Ended, done, returned, failed, starved, fold_lines}
use rrep.EachLine.Refine.{Over}
use rrep.Pattern.{
  Engine, Pattern, Match, matched, no_match, regerror, starved as match_starved, match_pattern,
}
use rrep.Pattern.Regex.{IsLawful}
use rrep.Replacement.{Replace}
use rrep.Replace.Ends.{InLine, match_pattern-InLine}
use rrep.World.{Name, Os, has_nul, ScanEnd, binary_file, scan_regerror, scan_stuck}
use rrep.ProcessFile.{scan_line, scan_goes_on}

-- A round of the scan, and the scan.
abbrev StepInTime : Step Bool ScanEnd → Type 0
StepInTime (next found) = Unit
StepInTime (return binary_file) = Unit
StepInTime (return (scan_regerror e)) = Unit
StepInTime (return scan_stuck) = ⊥

abbrev pub ScanInTime : Ended Bool ScanEnd → Type 0
ScanInTime (done found) = Unit
ScanInTime (returned binary_file) = Unit
ScanInTime (returned (scan_regerror e)) = Unit
ScanInTime (returned scan_stuck) = ⊥
ScanInTime (failed found e) = Unit
ScanInTime starved = ⊥

step-ScanInTime :
    (x : Step Bool ScanEnd) (again : Bool → Ended Bool ScanEnd)
    → StepInTime x
    → ((found : Bool) → ScanInTime (again found))
    → ScanInTime (elim x [ next found ↦ again found | return y ↦ returned y ])
step-ScanInTime (next found) again h k = k found
step-ScanInTime (return binary_file) again h k = tt
step-ScanInTime (return (scan_regerror e)) again h k = tt
step-ScanInTime (return scan_stuck) again h k = h

module _ (E : Engine) (lawful : IsLawful E) (alloc : ℕ → Bool) (os : Os) (o : Options)
    (pattern : Pattern E) (r : Replace) (relative_path : Option Name) (file_name : Name)
    (pos : 0 < length pattern.string) where
  matched_line :
      (line : List ℕ) (found : Bool) (x : Match)
      → match_pattern E o pattern line 0 ≡ x
      → InLine E lawful alloc o pattern r pos line 0 x
      → StepInTime (scan_line E alloc os o pattern r relative_path file_name line found)
  unfolding scan_line
  matched_line line found x e h = elim (Bool-cases (not o.binary && has_nul line)) [
    | inl b ↦ rw b tt
    | inr b ↦ rw (b, e) (answered x h)
  ]
    where
      answered :
          (x : Match)
          → InLine E lawful alloc o pattern r pos line 0 x
          → StepInTime (elim x [
            | matched m subs ↦ next true
            | no_match ↦ next found
            | regerror e ↦ return (scan_regerror e)
            | match_starved ↦ return scan_stuck
          ])
      answered (matched m subs) h = tt
      answered no_match h = tt
      answered (regerror e) h = tt
      answered match_starved h = h

  abbrev scanned : List (List ℕ) → Bool → Ended Bool ScanEnd
  scanned =
      fold_lines (scan_goes_on E alloc os o pattern r relative_path file_name)
        (scan_line E alloc os o pattern r relative_path file_name)

  scanned-ScanInTime : (ls : List (List ℕ)) (found : Bool) → ScanInTime (scanned ls found)
  unfolding fold_lines
  scanned-ScanInTime [] found = tt
  scanned-ScanInTime (l ∷ ls) found =
      elim (Bool-cases (scan_goes_on E alloc os o pattern r relative_path file_name found)) [
        | inr g ↦ rw (g, fold_lines) tt
        | inl g ↦
            rw (g, fold_lines)
              (step-ScanInTime (scan_line E alloc os o pattern r relative_path file_name l found)
                (scanned ls)
                (matched_line l found _ refl
                  (match_pattern-InLine E lawful alloc o pattern r pos l 0 (omega arith)))
                (scanned-ScanInTime ls))
      ]

  pub Over-ScanInTime :
      (ls : List (List ℕ)) (f₀ : File) (x : Ended Bool ScanEnd × Reader × File)
      → Over
          (scan_goes_on E alloc os o pattern r relative_path file_name)
          (scan_line E alloc os o pattern r relative_path file_name)
          o.binary
          alloc
          ls
          f₀
          false
          x
      → ScanInTime x.0
  Over-ScanInTime ls f₀ (done found, reader, fp) q = tt
  Over-ScanInTime ls f₀ (failed found e, reader, fp) q = tt
  Over-ScanInTime ls f₀ (returned y, reader, fp) (e, c, b, big) =
      subst ScanInTime (sym e) (scanned-ScanInTime ls false)
  Over-ScanInTime ls f₀ (starved, reader, fp) (e, c, b, big) =
      subst ScanInTime (sym e) (scanned-ScanInTime ls false)
