-- ===== src/EachLine.antt =====
-- The loops of src/rrep.c over the lines of a file: `while ((rr = read_line (...)) == SUCCESS)` of
-- replace_string and of process_file.
pub mod Refine
pub mod AnyFile
pub mod Size
use rrep.Base.{ℕ, zero, suc, ◌+◌, Bool, true, false, List, [], ◌∷◌, if◌then◌else◌, length}
use rrep.Bufferio.{
  File, Reader, Status, success, end_reached, failure, out_of_fuel, ReadOut, read_line,
}
use rrep.Messages.{ErrCode}
use rrep.Bufferio.Memory.{window}

-- What the body does with a line: it goes on with a new state, or leaves the loop by a return.
pub data Step (S R : Type 0) : Type 0 where
  next : S → Step S R
  return : R → Step S R

-- How the loop ends: at the end of the file or by its own test, by a return of the body, or because
-- read_line failed.
pub data Ended (S R : Type 0) : Type 0 where
  done : S → Ended S R
  returned : R → Ended S R
  failed : S → ErrCode → Ended S R
  starved : Ended S R

module _ {S R : Type 0} (go_on : S → Bool) (body : List ℕ → S → Step S R) where
  -- The same loop over lines that are there already.
  unfoldable pub fold_lines : List (List ℕ) → S → Ended S R
  fold_lines [] s = done s
  fold_lines (l ∷ ls) s = elim (go_on s) [
    | false ↦ done s
    | true ↦ elim (body l s) [ next s' ↦ fold_lines ls s' | return x ↦ returned x ]
  ]

  -- The body of the loop for what read_line has returned; the function makes the next round.
  unfoldable pub one_line :
      (S → Reader → File → Ended S R × Reader × File) → S → ReadOut → Ended S R × Reader × File
  one_line again s (success i n, r, f) = elim (body (window r.buffer i n) s) [
    | next s' ↦ again s' r f
    | return x ↦ (returned x, r, f)
  ]
  one_line again s (end_reached, r, f) = (done s, r, f)
  one_line again s (failure e, r, f) = (failed s e, r, f)
  one_line again s (out_of_fuel, r, f) = (starved, r, f)

  module _ (binary : Bool) (alloc : ℕ → Bool) where
    unfoldable pub each_line : ℕ → Bool → Reader → File → S → Ended S R × Reader × File
    each_line zero fresh r f s = (starved, r, f)
    each_line (suc fuel) fresh r f s = elim (go_on s) [
      | false ↦ (done s, r, f)
      | true ↦
          one_line (λ s' r' f'. each_line fuel false r' f' s') s (read_line binary alloc fresh r f)
    ]

    -- A file has at most as many lines as bytes, so the fuel is enough.
    unfoldable pub whole_file : Reader → File → S → Ended S R × Reader × File
    unfolding each_line one_line
    whole_file r f s = each_line (length f.rest + 2) true r f s
