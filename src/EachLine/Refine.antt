-- ===== src/EachLine/Refine.antt =====
-- A loop over read_line is the loop over the lines of the file, unless the device or an allocation
-- fails.
use rrep.Base.{
  ℕ, zero, suc, ◌+◌, ◌≤◌, ◌<◌, ◌≡◌, refl, sym, ap, ◌∙◌, ◌⊎◌, inl, inr, Bool, true, false, List, [],
  ◌∷◌, arith, length, Bool-cases, List-cases,
}
use rrep.Bufferio.{
  File, Reader, success, end_reached, failure, out_of_fuel, ReadOut, read_line, reset,
}
use rrep.Messages.{read_file, realloc_buffer}
use rrep.Bufferio.Lines.{lines, cons_line}
use rrep.Bufferio.Memory.{window}
use rrep.Bufferio.Search.{Ready, pending, Delivers}
use rrep.Bufferio.Calls.{Fresh, read_line_first, read_line_next, read_line_at_end}
use rrep.EachLine.{
  Step, next, return, Ended, done, returned, failed, starved, fold_lines, one_line, each_line,
  whole_file,
}

length-cons_line : (c : ℕ) (ls : List (List ℕ)) → length (cons_line c ls) ≤ length ls + 1
length-cons_line c [] = omega arith
length-cons_line c (l ∷ ls) = omega arith

-- A file has at most as many lines as bytes.
pub length-lines : (binary : Bool) (xs : List ℕ) → length (lines binary xs) ≤ length xs
unfolding lines
length-lines binary [] = omega arith
length-lines binary (c ∷ cs) =
    ground (arith, length-lines binary cs, length-cons_line c (lines binary cs))

module _ {S R : Type 0} (go_on : S → Bool) (body : List ℕ → S → Step S R) (binary : Bool)
    (alloc : ℕ → Bool) where
  abbrev Out : Type 0
  Out = Ended S R × Reader × File

  -- What a loop has to end with: it agrees with the loop over the lines, and leaves the stream open;
  -- or read_line has failed and closed the stream.
  abbrev pub Over : List (List ℕ) → File → S → Out → Type 0
  Over ls f₀ s (failed t e, r, f) =
      (f.closes ≡ f₀.closes + 1)
      × (((e ≡ read_file) × (f₀.bad ≡ true))
          ⊎ ((e ≡ realloc_buffer) × ((n : ℕ) × (alloc n ≡ false))))
  Over ls f₀ s (out, r, f) =
      (out ≡ fold_lines go_on body ls s)
      × (f.closes ≡ f₀.closes)
      × (f.bad ≡ f₀.bad)
      × (2 ≤ r.buffer_size)

  -- The same for the lines of the bytes.
  abbrev pub Runs : List ℕ → File → S → Out → Type 0
  Runs bytes f₀ s out = Over (lines binary bytes) f₀ s out

  pub Step-cases : (x : Step S R) → ((s : S) × (x ≡ next s)) ⊎ ((a : R) × (x ≡ return a))
  Step-cases (next s) = inl (s, refl)
  Step-cases (return a) = inr (a, refl)

  pub fold_next :
      (ls rest : List (List ℕ)) (l : List ℕ) (s s' : S)
      → ls ≡ l ∷ rest
      → go_on s ≡ true
      → body l s ≡ next s'
      → fold_lines go_on body ls s ≡ fold_lines go_on body rest s'
  unfolding fold_lines
  fold_next ls rest l s s' e g h = rw (e, fold_lines, g, h)

  pub fold_return :
      (ls rest : List (List ℕ)) (l : List ℕ) (s : S) (a : R)
      → ls ≡ l ∷ rest
      → go_on s ≡ true
      → body l s ≡ return a
      → fold_lines go_on body ls s ≡ returned a
  unfolding fold_lines
  fold_return ls rest l s a e g h = rw (e, fold_lines, g, h)

  pub fold_stop :
      (ls : List (List ℕ)) (s : S) → go_on s ≡ false → fold_lines go_on body ls s ≡ done s
  unfolding fold_lines
  fold_stop [] s g = refl
  fold_stop (l ∷ ls) s g = rw (g, fold_lines)

  -- The loop from the next state is the loop from this one.
  pub Over-from :
      (ls rest : List (List ℕ)) (f₀ f : File) (s s' : S) (out : Out)
      → fold_lines go_on body ls s ≡ fold_lines go_on body rest s'
      → f.closes ≡ f₀.closes
      → f.bad ≡ f₀.bad
      → Over rest f s' out
      → Over ls f₀ s out
  Over-from ls rest f₀ f s s' (failed t e, r, g) q c b (d, inl (x, y)) =
      (omega arith, inl (x, sym b ∙ y))
  Over-from ls rest f₀ f s s' (failed t e, r, g) q c b (d, inr x) = (omega arith, inr x)
  Over-from ls rest f₀ f s s' (done x, r, g) q c b (h, d, k, z) = (h ∙ sym q, d ∙ c, k ∙ b, z)
  Over-from ls rest f₀ f s s' (returned x, r, g) q c b (h, d, k, z) = (h ∙ sym q, d ∙ c, k ∙ b, z)
  Over-from ls rest f₀ f s s' (starved, r, g) q c b (h, d, k, z) = (h ∙ sym q, d ∙ c, k ∙ b, z)

  pub one_line_next :
      (again : S → Reader → File → Out) (s s' : S) (i n : ℕ) (r : Reader) (f : File)
      → body (window r.buffer i n) s ≡ next s'
      → one_line go_on body again s (success i n, r, f) ≡ again s' r f
  unfolding one_line
  one_line_next again s s' i n r f h = rw (h, one_line)

  pub one_line_return :
      (again : S → Reader → File → Out) (s : S) (a : R) (i n : ℕ) (r : Reader) (f : File)
      → body (window r.buffer i n) s ≡ return a
      → one_line go_on body again s (success i n, r, f) ≡ (returned a, r, f)
  unfolding one_line
  one_line_return again s a i n r f h = rw (h, one_line)

  -- The round for a line that read_line delivered from the bytes.
  one_line-Runs :
      (again : S → Reader → File → Out) (bytes : List ℕ) (f₀ : File) (s : S) (out : ReadOut)
      → go_on s ≡ true
      → Delivers binary alloc bytes f₀ out
      → ((s' : S) (r : Reader) (f : File)
          → Ready r f
          → length (lines binary (pending r f)) < length (lines binary bytes)
          → Runs (pending r f) f s' (again s' r f))
      → Runs bytes f₀ s (one_line go_on body again s out)
  unfolding one_line
  one_line-Runs again bytes f₀ s (success i n, r, f) g (e, ready, c, b, l, p) h =
      elim (Step-cases (body (window r.buffer i n) s)) [
        | inl (s', q) ↦ rw (one_line_next again s s' i n r f q) (
            Over-from (lines binary bytes) (lines binary (pending r f)) f₀ f s s' (again s' r f)
              (fold_next (lines binary bytes) (lines binary (pending r f)) (window r.buffer i n) s
                s' e g q)
              c b (h s' r f ready (omega (arith, ap length e))))
        | inr (a, q) ↦ rw (one_line_return again s a i n r f q) (
          sym (
              fold_return (lines binary bytes) (lines binary (pending r f)) (window r.buffer i n) s
                a e g q),
          c,
          b,
          omega (arith, ready.positive, ready.in_fill, ready.in_buffer),
        )
      ]
  one_line-Runs again bytes f₀ s (failure e, r, f) g d h = d
  one_line-Runs again bytes f₀ s (end_reached, r, f) g d h = absurd d
  one_line-Runs again bytes f₀ s (out_of_fuel, r, f) g d h = absurd d

  pub each_line_stop :
      (fuel : ℕ) (fresh : Bool) (r : Reader) (f : File) (s : S)
      → go_on s ≡ false
      → each_line go_on body binary alloc (suc fuel) fresh r f s ≡ (done s, r, f)
  unfolding each_line
  each_line_stop fuel fresh r f s g = rw (g, each_line)

  pub each_line_goes :
      (fuel : ℕ) (fresh : Bool) (r : Reader) (f : File) (s : S)
      → go_on s ≡ true
      → each_line go_on body binary alloc (suc fuel) fresh r f s
        ≡ one_line go_on body
            (λ s' r' f'. each_line go_on body binary alloc fuel false r' f' s')
            s
            (read_line binary alloc fresh r f)
  unfolding each_line
  each_line_goes fuel fresh r f s g = rw (g, each_line)

  one_line_end :
      (again : S → Reader → File → Out) (bytes : List ℕ) (s : S) (r : Reader) (f : File)
      → bytes ≡ []
      → 2 ≤ r.buffer_size
      → Runs bytes f s (one_line go_on body again s (end_reached, r, f))
  unfolding one_line fold_lines lines
  one_line_end again bytes s r f e big = (rw e, refl, refl, big)

  -- The later rounds.
  each_line-Runs :
      (fuel : ℕ) (r : Reader) (f : File) (s : S)
      → Ready r f
      → length (lines binary (pending r f)) < fuel
      → Runs (pending r f) f s (each_line go_on body binary alloc fuel false r f s)
  each_line-Runs zero r f s v enough = absurd (omega arith)
  each_line-Runs (suc fuel) r f s v enough = elim (Bool-cases (go_on s)) [
    | inr g ↦
        rw (each_line_stop fuel false r f s g)
          (sym (fold_stop (lines binary (pending r f)) s g), refl, refl, big)
    | inl g ↦ rw (each_line_goes fuel false r f s g) (elim (List-cases (pending r f)) [
      | inl e ↦
          rw (read_line_at_end binary alloc r f v e)
            (one_line_end again (pending r f) s (reset r) f e big)
      | inr ne ↦
          one_line-Runs again (pending r f) f s (read_line binary alloc false r f) g
            (read_line_next binary alloc r f v ne)
            (λ s' r' f' v' less. each_line-Runs fuel r' f' s' v' (omega arith))
    ])
  ]
    where
      again : S → Reader → File → Out
      again s' r' f' = each_line go_on body binary alloc fuel false r' f' s'

      big : 2 ≤ r.buffer_size
      big = omega (arith, v.positive, v.in_fill, v.in_buffer)

  -- With a buffer of at least two bytes, on a file at its start that is not empty, the loop over
  -- read_line ends as the loop over the lines of the file does and leaves the stream open; or
  -- read_line has failed, at a device error or a refused realloc, and has closed the stream.
  pub whole_file-Runs :
      (r : Reader) (f : File) (s : S)
      → 2 ≤ r.buffer_size
      → Fresh f
      → Runs f.rest f s (whole_file go_on body binary alloc r f s)
  unfolding whole_file
  whole_file-Runs r f s big v = rw enough (elim (Bool-cases (go_on s)) [
    | inr g ↦
        rw (each_line_stop (length f.rest + 1) true r f s g)
          (sym (fold_stop (lines binary f.rest) s g), refl, refl, big)
    | inl g ↦ rw (each_line_goes (length f.rest + 1) true r f s g) (
        one_line-Runs again f.rest f s (read_line binary alloc true r f) g
          (read_line_first binary alloc r f big v)
          (λ s' r' f' v' less.
            each_line-Runs (length f.rest + 1) r' f' s' v'
              (omega (arith, length-lines binary f.rest))))
  ])
    where
      enough : length f.rest + 2 ≡ suc (length f.rest + 1)
      enough = omega arith

      again : S → Reader → File → Out
      again s' r' f' = each_line go_on body binary alloc (length f.rest + 1) false r' f' s'
