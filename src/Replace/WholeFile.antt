-- ===== src/Replace/WholeFile.antt =====
-- replace_string with fixed strings on a whole file: what the output holds behind what it held.
use mathlib.Core.List.{flat_map}
use mathlib.Core.Path.{subst}
use native.Mathlib.Nat.{le_refl}
use rrep.Base.{
  ℕ, zero, ◌+◌, ◌≡◌, ◌≤◌, ◌<◌, refl, sym, ◌⊎◌, inl, inr, Bool, true, false, List, [], ◌∷◌, ◌++◌,
  arith, append-nil, append_assoc, length, All, drop, drop_all, Bool-cases, ◌==◌,
}
use rrep.Options.{Options}
use rrep.Messages.{read_file, realloc_buffer}
use rrep.Bufferio.{File, Reader, delimits}
use rrep.Bufferio.Lines.{lines, cons_line}
use rrep.Bufferio.Calls.{Fresh}
use rrep.EachLine.{next, return, Ended, done, returned, failed, starved, fold_lines}
use rrep.EachLine.Refine.{Runs, whole_file-Runs}
use rrep.Pattern.{Engine, Pattern, cstr}
use rrep.Pattern.Fixed.{AnyPlace}
use rrep.Replacement.{Replace}
use rrep.Replace.{
  Sink, written, LineEnd, flushed, write_failed, regex_failed, out_of_rounds, replace_line, step_of,
  line_step, replace_string,
}
use rrep.Replace.Write.{InSize, EmitsLine, Refused}
use rrep.Replace.Global.{replace_all}
use rrep.Replace.Fixed.{fixed_line}
use rrep.Replace.Text.{Text, OneLine, cstr-Text, flat_map-replace_all}

cons_line-Text :
    (c : ℕ) (ls : List (List ℕ)) → (c == 0) ≡ false → All Text ls → All Text (cons_line c ls)
cons_line-Text c [] h t = ((h, tt), tt)
cons_line-Text c (l ∷ ls) h (tl, t) = ((h, tl), t)

pub lines-Text : (binary : Bool) (xs : List ℕ) → Text xs → All Text (lines binary xs)
unfolding lines
lines-Text binary [] t = tt
lines-Text binary (c ∷ cs) (h, t) = elim (Bool-cases (delimits binary c)) [
  | inl d ↦ rw d ((h, tt), lines-Text binary cs t)
  | inr d ↦ rw d (cons_line-Text c (lines binary cs) h (lines-Text binary cs t))
]

module _ (alloc : ℕ → Bool) where
  -- How the loop over the lines ends when no regular expression fails.
  -- `bad` says whether a device error ends the file.
  abbrev pub EmitsFile : Bool → Sink → List ℕ → Ended Sink (Sink × LineEnd) → Type 0
  EmitsFile bad sink text (done s) = (written s ≡ written sink ++ text) × InSize s
  EmitsFile bad sink text (returned (s, write_failed)) = Refused alloc
  EmitsFile bad sink text (returned (s, flushed)) = ⊥
  EmitsFile bad sink text (returned (s, regex_failed e)) = ⊥
  EmitsFile bad sink text (returned (s, out_of_rounds)) = ⊥
  EmitsFile bad sink text (failed t e) =
      ((e ≡ read_file) × (bad ≡ true)) ⊎ ((e ≡ realloc_buffer) × Refused alloc)
  EmitsFile bad sink text starved = ⊥

  -- What was written before stands in front.
  EmitsFile-after :
      (bad : Bool) (sink s : Sink) (a b : List ℕ) (out : Ended Sink (Sink × LineEnd))
      → written s ≡ written sink ++ a
      → EmitsFile bad s b out
      → EmitsFile bad sink (a ++ b) out
  EmitsFile-after bad sink s a b (done t) e (h, v) =
      (rw (h, e) (append_assoc (written sink) a b), v)
  EmitsFile-after bad sink s a b (returned (t, write_failed)) e h = h
  EmitsFile-after bad sink s a b (returned (t, flushed)) e h = h
  EmitsFile-after bad sink s a b (returned (t, regex_failed x)) e h = h
  EmitsFile-after bad sink s a b (returned (t, out_of_rounds)) e h = h
  EmitsFile-after bad sink s a b (failed t x) e h = h
  EmitsFile-after bad sink s a b starved e h = h

module _ (E : Engine) (alloc : ℕ → Bool) (o : Options) (pattern : Pattern E) (r : Replace)
    (fixed : o.fixed ≡ true) (any : AnyPlace o) (pos : 0 < length pattern.string) where
  -- A line with its C string rewritten.
  abbrev pub rewritten : List ℕ → List ℕ
  rewritten line =
      replace_all pattern.string r.string zero (cstr line) ++ drop (length (cstr line)) line

  abbrev Out : Type 0
  Out = Ended Sink (Sink × LineEnd)

  -- One line, and the lines behind it.
  one_step :
      (bad : Bool) (sink : Sink) (a b : List ℕ) (w : Sink × LineEnd) (again : Sink → Out)
      → EmitsLine alloc sink a w
      → ((s : Sink) → InSize s → EmitsFile alloc bad s b (again s))
      → EmitsFile alloc bad sink
          (a ++ b)
          (elim (step_of w) [ next s ↦ again s | return x ↦ returned x ])
  unfolding step_of
  one_step bad sink a b (s, flushed) again (h, v) k =
      EmitsFile-after alloc bad sink s a b (again s) h (k s v)
  one_step bad sink a b (s, write_failed) again h k = h
  one_step bad sink a b (s, regex_failed e) again h k = absurd h
  one_step bad sink a b (s, out_of_rounds) again h k = absurd h

  fold_lines-EmitsFile :
      (bad : Bool) (ls : List (List ℕ)) (sink : Sink)
      → InSize sink
      → EmitsFile alloc bad sink
          (flat_map rewritten ls)
          (fold_lines (λ _. true) (line_step E alloc o pattern r) ls sink)
  unfolding fold_lines flat_map line_step
  fold_lines-EmitsFile bad [] sink v = (sym (append-nil (written sink)), v)
  fold_lines-EmitsFile bad (l ∷ ls) sink v =
      one_step bad sink (rewritten l) (flat_map rewritten ls)
        (replace_line E alloc o pattern r (length l + 1) l 0 true sink)
        (fold_lines (λ _. true) (line_step E alloc o pattern r) ls)
        (fixed_line E alloc o pattern r fixed any pos (length l + 1) l 0 true sink (omega arith)
          (omega arith) v)
        (λ s w. fold_lines-EmitsFile bad ls s w)

  Runs-emits :
      (binary : Bool) (bytes : List ℕ) (f₀ : File) (sink : Sink) (out : Out × Reader × File)
      → InSize sink
      → Runs (λ _. true) (line_step E alloc o pattern r) binary alloc bytes f₀ sink out
      → EmitsFile alloc f₀.bad sink (flat_map rewritten (lines binary bytes)) out.0
  Runs-emits binary bytes f₀ sink (done s, reader, f) v (e, c, b, z) =
      subst (EmitsFile alloc f₀.bad sink (flat_map rewritten (lines binary bytes))) (sym e)
        (fold_lines-EmitsFile f₀.bad (lines binary bytes) sink v)
  Runs-emits binary bytes f₀ sink (returned x, reader, f) v (e, c, b, z) =
      subst (EmitsFile alloc f₀.bad sink (flat_map rewritten (lines binary bytes))) (sym e)
        (fold_lines-EmitsFile f₀.bad (lines binary bytes) sink v)
  Runs-emits binary bytes f₀ sink (starved, reader, f) v (e, c, b, z) =
      subst (EmitsFile alloc f₀.bad sink (flat_map rewritten (lines binary bytes))) (sym e)
        (fold_lines-EmitsFile f₀.bad (lines binary bytes) sink v)
  Runs-emits binary bytes f₀ sink (failed t x, reader, f) v (c, inl (e, b)) = inl (e, b)
  Runs-emits binary bytes f₀ sink (failed t x, reader, f) v (c, inr w) = inr w

  -- With fixed strings and without -w and -x, for a pattern that is not empty, a buffer of at least
  -- two bytes, a file at its start that is not empty, and an output inside its memory:
  -- replace_string ends with the lines of the file, each rewritten up to its first NUL and copied
  -- behind it, behind what the output held; or it has failed because of a device error or of a
  -- refused realloc.
  pub replace_string-lines :
      (reader : Reader) (f : File) (sink : Sink)
      → 2 ≤ reader.buffer_size
      → Fresh f
      → InSize sink
      → EmitsFile alloc f.bad sink
          (flat_map rewritten (lines o.binary f.rest))
          (replace_string E alloc o pattern r reader f sink).0
  unfolding replace_string
  replace_string-lines reader f sink big fresh v = Runs-emits o.binary f.rest f sink _ v (
      whole_file-Runs (λ _. true) (line_step E alloc o pattern r) o.binary alloc reader f sink big
        fresh)

  flat_map-Text :
      (ls : List (List ℕ))
      → All Text ls
      → flat_map rewritten ls ≡ flat_map (replace_all pattern.string r.string zero) ls
  unfolding flat_map
  flat_map-Text [] t = refl
  flat_map-Text (l ∷ ls) (h, t) =
      rw (cstr-Text l h, drop_all (length l) l (le_refl (length l)), append-nil, flat_map-Text ls t)

  -- With fixed strings and without -w and -x, for a PATTERN that is not empty and holds no newline,
  -- a buffer of at least two bytes, a file at its start that is not empty and holds no NUL, and an
  -- output inside its memory: replace_string ends with the text of the file behind what the output
  -- held, in which each occurrence of PATTERN, from left to right, is replaced; or it has failed
  -- because of a device error or of a refused realloc.
  pub replace_string_fixed :
      (reader : Reader) (f : File) (sink : Sink)
      → 2 ≤ reader.buffer_size
      → Fresh f
      → InSize sink
      → OneLine pattern.string
      → Text f.rest
      → EmitsFile alloc f.bad sink
          (replace_all pattern.string r.string zero f.rest)
          (replace_string E alloc o pattern r reader f sink).0
  replace_string_fixed reader f sink big fresh v one t =
      rw
        (
          ← flat_map-replace_all pattern.string r.string pos one o.binary f.rest t,
          ← flat_map-Text (lines o.binary f.rest) (lines-Text o.binary f.rest t),
        )
        (replace_string-lines reader f sink big fresh v)
