-- ===== src/ProcessFile/Fixed.antt =====
-- process_file with fixed strings, where the system grants what is asked.
use mathlib.Core.List.{flat_map, flatten}
use rrep.Base.{
  ℕ, zero, ◌≡◌, ◌<◌, refl, ◌∙◌, ◌⊎◌, inl, inr, Bool, true, false, not, ◌&&◌, Option, some, List, [],
  ◌∷◌, length, All, Bool-cases, eq→==,
}
use rrep.Options.{Options}
use rrep.EachLine.{Ended, done, next, fold_lines}
use rrep.Pattern.{Engine, Pattern, match_fixed}
use rrep.Pattern.Fixed.{AnyPlace, match_fixed-Finds}
use rrep.Replacement.{Replace}
use rrep.Replace.Global.{replace_all, replace_all_none}
use rrep.Replace.Fixed.{match_is_fixed, found_or_not}
use rrep.Replace.Text.{Text, cstr-Text}
use rrep.World.{Name, Files, same_name, store_file, Os, ScanEnd, has_nul}
use rrep.ProcessFile.{scan_line, scan_goes_on}

has_nul-Text : (l : List ℕ) → Text l → has_nul l ≡ false
unfolding has_nul
has_nul-Text [] t = refl
has_nul-Text (c ∷ l) (h, t) = rw (h, has_nul-Text l t)

-- On a line without NUL the test for a binary file fails.
no_binary : (binary : Bool) (l : List ℕ) → Text l → (not binary && has_nul l) ≡ false
no_binary true l t = refl
no_binary false l t = has_nul-Text l t

pub same_name_refl : (a : Name) → same_name a a ≡ true
unfolding same_name
same_name_refl [] = refl
same_name_refl (c ∷ a) = rw (eq→== c c refl, same_name_refl a)

pub store_file_same :
    (files : Files) (name : Name) (bytes : List ℕ) → store_file files name bytes name ≡ some bytes
unfolding store_file
store_file_same files name bytes = rw (same_name_refl name)

module _ (E : Engine) (alloc : ℕ → Bool) (os : Os) (o : Options) (pattern : Pattern E) (r : Replace)
    (relative_path : Option Name) (file_name : Name) (fixed : o.fixed ≡ true) (any : AnyPlace o)
    (pos : 0 < length pattern.string) where
  abbrev pub scanned : List (List ℕ) → Bool → Ended Bool ScanEnd
  scanned =
      fold_lines (scan_goes_on E alloc os o pattern r relative_path file_name)
        (scan_line E alloc os o pattern r relative_path file_name)

  -- The scan has found the pattern, or there is nothing to replace.
  abbrev pub Scanned : List (List ℕ) → Bool → Type 0
  Scanned ls found =
      (scanned ls found ≡ done true)
      ⊎ ((scanned ls found ≡ done false)
          × (flat_map (replace_all pattern.string r.string zero) ls ≡ flatten ls))

  scan_line-Text :
      (l : List ℕ) (found : Bool)
      → Text l
      → (scan_line E alloc os o pattern r relative_path file_name l found ≡ next true)
        ⊎ ((scan_line E alloc os o pattern r relative_path file_name l found ≡ next found)
            × (replace_all pattern.string r.string zero l ≡ l))
  unfolding scan_line
  scan_line-Text l found t =
      elim (found_or_not E alloc o pattern r fixed any pos l 0 (match_fixed o pattern.string l 0)
        (match_fixed-Finds o pattern.string l 0 pos)) [
          | inr (m, subs, e, w) ↦
              rw (no_binary o.binary l t, match_is_fixed E alloc o pattern r fixed any pos l 0, e)
                (inl refl)
          | inl (e, nowhere) ↦
              rw (no_binary o.binary l t, match_is_fixed E alloc o pattern r fixed any pos l 0, e)
                (inr (
                  refl,
                  replace_all_none pattern.string r.string l (rw (cstr-Text l t) at nowhere),
                ))
        ]

  scanned_next :
      (l : List ℕ) (ls : List (List ℕ)) (found found' : Bool)
      → scan_goes_on E alloc os o pattern r relative_path file_name found ≡ true
      → scan_line E alloc os o pattern r relative_path file_name l found ≡ next found'
      → scanned (l ∷ ls) found ≡ scanned ls found'
  unfolding fold_lines
  scanned_next l ls found found' g e = rw (g, e, fold_lines)

  scanned_stop :
      (l : List ℕ) (ls : List (List ℕ)) (found : Bool)
      → scan_goes_on E alloc os o pattern r relative_path file_name found ≡ false
      → scanned (l ∷ ls) found ≡ done found
  unfolding fold_lines
  scanned_stop l ls found g = rw (g, fold_lines)

  scanned_nil : (found : Bool) → scanned [] found ≡ done found
  unfolding fold_lines
  scanned_nil found = refl

  scan_found : (ls : List (List ℕ)) → All Text ls → scanned ls true ≡ done true
  scan_found [] t = scanned_nil true
  scan_found (l ∷ ls) (h, t) = elim (Bool-cases (not o.binary)) [
    | inr b ↦ scanned_stop l ls true b
    | inl b ↦ elim (scan_line-Text l true h) [
      | inl e ↦ scanned_next l ls true true b e ∙ scan_found ls t
      | inr (e, q) ↦ scanned_next l ls true true b e ∙ scan_found ls t
    ]
  ]

  pub scan-Scanned : (ls : List (List ℕ)) → All Text ls → Scanned ls false
  unfolding flat_map flatten
  scan-Scanned [] t = inr (scanned_nil false, refl)
  scan-Scanned (l ∷ ls) (h, t) = elim (scan_line-Text l false h) [
    | inl e ↦ inl (scanned_next l ls false true refl e ∙ scan_found ls t)
    | inr (e, q) ↦ elim (scan-Scanned ls t) [
      | inl z ↦ inl (scanned_next l ls false false refl e ∙ z)
      | inr (z, k) ↦ inr (scanned_next l ls false false refl e ∙ z, rw (q, k))
    ]
  ]
