-- ===== src/EachLine/AnyFile.antt =====
-- A loop over read_line on any file, an empty one included.
use mathlib.Core.Path.{subst}
use rrep.Base.{
  ℕ, suc, ◌+◌, ◌≤◌, ◌<◌, ◌≡◌, ◌≢◌, refl, sym, ap, Bool, true, false, List, [], ◌∷◌, arith, length,
  Bool-cases, List-cases, inl, inr,
}
use rrep.Bufferio.{File, Reader, success, end_reached, failure, out_of_fuel, ReadOut}
use rrep.Bufferio.Lines.{lines}
use rrep.Bufferio.Memory.{window}
use rrep.Bufferio.Empty.{DeliversStale, read_line_nothing, read_line_no_more}
use rrep.EachLine.{Step, Ended, fold_lines, one_line, each_line, whole_file}
use rrep.EachLine.Refine.{
  Over, Over-from, fold_next, fold_return, Step-cases, fold_stop, one_line_next, one_line_return,
  each_line_stop, each_line_goes, whole_file-Runs,
}

-- The lines that read_line delivers: those of the file; on an empty file the byte at the beginning of
-- the buffer.
unfoldable pub read_lines : Bool → ℕ → List ℕ → List (List ℕ)
read_lines binary stale [] = (stale ∷ []) ∷ []
read_lines binary stale (c ∷ cs) = lines binary (c ∷ cs)

some_length : (xs : List ℕ) → xs ≢ [] → 0 < length xs
some_length [] ne = absurd (ne refl)
some_length (c ∷ cs) ne = omega arith

pub read_lines_some :
    (binary : Bool) (stale : ℕ) (xs : List ℕ)
    → xs ≢ []
    → lines binary xs ≡ read_lines binary stale xs
unfolding read_lines
read_lines_some binary stale [] ne = absurd (ne refl)
read_lines_some binary stale (c ∷ cs) ne = refl

module _ {S R : Type 0} (go_on : S → Bool) (body : List ℕ → S → Step S R) (binary : Bool)
    (alloc : ℕ → Bool) where
  -- The rounds behind the one line.
  no_more-Over :
      (fuel : ℕ) (r : Reader) (f : File) (s : S)
      → f.eof ≡ true
      → r.buffer_fill ≤ r.search_pos
      → 2 ≤ r.buffer_size
      → Over go_on body binary alloc [] f s
          (each_line go_on body binary alloc (suc fuel) false r f s)
  unfolding one_line fold_lines
  no_more-Over fuel r f s e h big = elim (Bool-cases (go_on s)) [
    | inr g ↦ rw (each_line_stop go_on body binary alloc fuel false r f s g) (refl, refl, refl, big)
    | inl g ↦
        rw
          (
            each_line_goes go_on body binary alloc fuel false r f s g,
            read_line_no_more binary alloc r f e h,
          )
          (refl, refl, refl, big)
  ]

  -- The round for the one line.
  stale-Over :
      (fuel stale : ℕ) (f₀ : File) (s : S) (out : ReadOut)
      → go_on s ≡ true
      → DeliversStale stale f₀ out
      → Over go_on body binary alloc ((stale ∷ []) ∷ []) f₀ s (
          one_line go_on body
            (λ s' r' f'. each_line go_on body binary alloc (suc fuel) false r' f' s')
            s
            out)
  unfolding one_line
  stale-Over fuel stale f₀ s (success i n, r, f) g (e, eof, h, c, b, big) =
      elim (Step-cases go_on body binary alloc (body (window r.buffer i n) s)) [
        | inl (s', q) ↦ rw (one_line_next go_on body binary alloc again s s' i n r f q) (
            Over-from go_on body binary alloc ((stale ∷ []) ∷ []) [] f₀ f s s' _
              (fold_next go_on body binary alloc ((stale ∷ []) ∷ []) [] (window r.buffer i n) s s'
                (ap (λ l. l ∷ []) (sym e)) g q)
              c b (no_more-Over fuel r f s' eof h big))
        | inr (a, q) ↦ rw (one_line_return go_on body binary alloc again s a i n r f q) (
          sym (
              fold_return go_on body binary alloc ((stale ∷ []) ∷ []) [] (window r.buffer i n) s a
                (ap (λ l. l ∷ []) (sym e)) g q),
          c,
          b,
          big,
        )
      ]
    where
      again : S → Reader → File → Ended S R × Reader × File
      again s' r' f' = each_line go_on body binary alloc (suc fuel) false r' f' s'
  stale-Over fuel stale f₀ s (failure e, r, f) g (q, b, c) = (c, inl (q, b))
  stale-Over fuel stale f₀ s (end_reached, r, f) g d = absurd d
  stale-Over fuel stale f₀ s (out_of_fuel, r, f) g d = absurd d

  empty_file-Over :
      (r : Reader) (f : File) (s : S)
      → 2 ≤ r.buffer_size
      → f.rest ≡ []
      → f.eof ≡ false
      → f.error ≡ false
      → Over go_on body binary alloc
          ((r.buffer 0 ∷ []) ∷ [])
          f
          s
          (each_line go_on body binary alloc 2 true r f s)
  empty_file-Over r f s big e eof error = elim (Bool-cases (go_on s)) [
    | inr g ↦
        rw (each_line_stop go_on body binary alloc 1 true r f s g)
          (sym (fold_stop go_on body binary alloc _ s g), refl, refl, big)
    | inl g ↦
        rw (each_line_goes go_on body binary alloc 1 true r f s g)
          (stale-Over 0 (r.buffer 0) f s _ g (read_line_nothing binary alloc r f big e eof error))
  ]

  -- With a buffer of at least two bytes, on any file at its start: the loop over read_line ends as
  -- the loop over the lines of the file does, or on an empty file as the loop over the byte at the
  -- beginning of the buffer, and leaves the stream open; or read_line has failed, at a device error or
  -- a refused realloc, and has closed the stream.
  pub whole_file-Over :
      (r : Reader) (f : File) (s : S)
      → 2 ≤ r.buffer_size
      → f.eof ≡ false
      → f.error ≡ false
      → Over go_on body binary alloc
          (read_lines binary (r.buffer 0) f.rest)
          f
          s
          (whole_file go_on body binary alloc r f s)
  unfolding whole_file read_lines
  whole_file-Over r f s big eof error = elim (List-cases f.rest) [
    | inl e ↦
        subst
          (λ (xs : List ℕ).
            Over go_on body binary alloc (read_lines binary (r.buffer 0) xs) f s
              (each_line go_on body binary alloc (length xs + 2) true r f s))
          (sym e) (empty_file-Over r f s big e eof error)
    | inr ne ↦
        subst (λ ls. Over go_on body binary alloc ls f s (whole_file go_on body binary alloc r f s))
          (read_lines_some binary (r.buffer 0) f.rest ne)
          (whole_file-Runs go_on body binary alloc r f s big
            (record { some_bytes = some_length f.rest ne; not_eof = eof; no_error = error }))
  ]
