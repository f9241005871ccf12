-- ===== src/EachLine/Size.antt =====
-- A loop over read_line never makes the buffer smaller.
use rrep.Base.{ℕ, zero, suc, ◌+◌, ◌≤◌, Bool, true, false, List, length, Bool-cases, inl, inr}
use rrep.Bufferio.{File, Reader, success, end_reached, failure, out_of_fuel, ReadOut, read_line}
use rrep.Bufferio.Memory.{window}
use rrep.Bufferio.Size.{read_line-AtLeast}
use rrep.EachLine.Refine.{each_line_stop, each_line_goes}
use rrep.EachLine.{Step, next, return, Ended, one_line, each_line, whole_file}

module _ {S R : Type 0} (go_on : S → Bool) (body : List ℕ → S → Step S R) (binary : Bool)
    (alloc : ℕ → Bool) (n : ℕ) where
  abbrev Large : Ended S R × Reader × File → Type 0
  Large x = n ≤ x.1.buffer_size

  after_body :
      (x : Step S R) (r : Reader) (f : File) (again : S → Ended S R × Reader × File)
      → n ≤ r.buffer_size
      → ((s : S) → Large (again s))
      → Large (elim x [ next s ↦ again s | return a ↦ (Ended.returned a, r, f) ])
  after_body (next s) r f again h k = k s
  after_body (return a) r f again h k = h

  one_line-Large :
      (again : S → Reader → File → Ended S R × Reader × File) (s : S) (out : ReadOut)
      → n ≤ out.1.buffer_size
      → ((s' : S) (r : Reader) (f : File) → n ≤ r.buffer_size → Large (again s' r f))
      → Large (one_line go_on body again s out)
  unfolding one_line
  one_line-Large again s (success i k, r, f) h next_round =
      after_body (body (window r.buffer i k) s) r f (λ s'. again s' r f) h
        (λ s'. next_round s' r f h)
  one_line-Large again s (end_reached, r, f) h next_round = h
  one_line-Large again s (failure e, r, f) h next_round = h
  one_line-Large again s (out_of_fuel, r, f) h next_round = h

  each_line-Large :
      (fuel : ℕ) (fresh : Bool) (r : Reader) (f : File) (s : S)
      → n ≤ r.buffer_size
      → Large (each_line go_on body binary alloc fuel fresh r f s)
  unfolding each_line
  each_line-Large zero fresh r f s h = h
  each_line-Large (suc fuel) fresh r f s h = elim (Bool-cases (go_on s)) [
    | inr g ↦ rw (each_line_stop go_on body binary alloc fuel fresh r f s g) h
    | inl g ↦ rw (each_line_goes go_on body binary alloc fuel fresh r f s g) (
        one_line-Large (λ s' r' f'. each_line go_on body binary alloc fuel false r' f' s') s
          (read_line binary alloc fresh r f) (read_line-AtLeast binary alloc n fresh r f h)
          (λ s' r' f' k. each_line-Large fuel false r' f' s' k))
  ]

  pub whole_file-Large :
      (r : Reader) (f : File) (s : S)
      → n ≤ r.buffer_size
      → Large (whole_file go_on body binary alloc r f s)
  unfolding whole_file
  whole_file-Large r f s h = each_line-Large (length f.rest + 2) true r f s h
