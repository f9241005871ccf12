-- ===== src/Replace/Ends.antt =====
-- replace_string ends, for a fixed string and for a regular expression.
use mathlib.Core.Path.{subst}
use rrep.Base.{
  ℕ, zero, suc, ◌+◌, ◌-◌, ◌≤◌, ◌<◌, ◌≡◌, ◌≢◌, refl, sym, ◌⊎◌, inl, inr, Bool, true, false, ◌&&◌,
  Option, List, [], ◌∷◌, arith, length, drop, take, Bool-cases, Option-cases, length-drop, get_or,
  ◌==◌, ==→ne, ltb, if_both,
}
use rrep.Options.{Options}
use rrep.Messages.{read_file, realloc_buffer}
use rrep.Bufferio.{File, Reader, newline}
use rrep.EachLine.{next, return, Ended, done, returned, failed, starved as loop_starved, fold_lines}
use rrep.EachLine.Refine.{Over}
use rrep.EachLine.AnyFile.{read_lines, whole_file-Over}
use rrep.Pattern.{Engine, Pattern, Span, Match, matched, no_match, regerror, starved, match_pattern}
use rrep.Pattern.Strings.{length-cstr}
use rrep.Pattern.Fixed.{Finds, match_fixed-Finds}
use rrep.Pattern.Place.{match_is_fixed, match_is_none, match_is_compiled, before_end}
use rrep.Pattern.Regex.{IsLawful, FindsRegex, match_regex-FindsRegex}
use rrep.Replacement.{Replace}
use rrep.Replace.{
  Sink, Wrote, LineEnd, flushed, write_failed, regex_failed, out_of_rounds, and_then, flush,
  write_before, write_match, write_string, on_match, replace_line, step_of, line_step,
  replace_string,
}
use rrep.Replace.Write.{Refused}

-- The work on a line has not run out of rounds.
pub record LineEnds (x : Sink × LineEnd) : Type 0 where
  pub in_time : x.1 ≢ out_of_rounds

-- The end of the loop over the lines: the file has been copied, a line has failed, or read_line has
-- failed for one of its two reasons.
abbrev pub FileEnds : (ℕ → Bool) → Bool → Ended Sink (Sink × LineEnd) → Type 0
FileEnds alloc bad (done s) = Unit
FileEnds alloc bad (returned (s, write_failed)) = Unit
FileEnds alloc bad (returned (s, regex_failed e)) = Unit
FileEnds alloc bad (returned (s, flushed)) = ⊥
FileEnds alloc bad (returned (s, out_of_rounds)) = ⊥
FileEnds alloc bad (failed s e) =
    ((e ≡ read_file) × (bad ≡ true)) ⊎ ((e ≡ realloc_buffer) × Refused alloc)
FileEnds alloc bad loop_starved = ⊥

and_then-LineEnds :
    (w : Wrote) (k : Sink → Sink × LineEnd)
    → ((s : Sink) → LineEnds (k s))
    → LineEnds (and_then w k)
and_then-LineEnds (s, true) k h = record { in_time = λ e. cc }
and_then-LineEnds (s, false) k h = h s

module _ (E : Engine) (lawful : IsLawful E) (alloc : ℕ → Bool) (o : Options) (pattern : Pattern E)
    (r : Replace) (pos : 0 < length pattern.string) where
  -- An answer about a line from a position on.
  abbrev pub InLine : List ℕ → ℕ → Match → Type 0
  InLine line start (matched m subs) = start + m.eo ≤ length line
  InLine line start no_match = Unit
  InLine line start (regerror e) = Unit
  InLine line start starved = ⊥

  fixed-InLine :
      (line : List ℕ) (start : ℕ) (x : Match)
      → start ≤ length line
      → Finds o pattern.string line start 0 x
      → InLine line start x
  fixed-InLine line start (matched m subs) h f =
      omega (arith, f.within, length-cstr (drop start line), length-drop start line)
  fixed-InLine line start no_match h f = tt
  fixed-InLine line start (regerror e) h f = tt
  fixed-InLine line start starved h f = f

  regex-InLine :
      (re : E.Regex) (line : List ℕ) (start : ℕ) (x : Match)
      → FindsRegex E lawful o re line start x
      → InLine line start x
  regex-InLine re line start (matched m subs) f = f.within
  regex-InLine re line start no_match f = tt
  regex-InLine re line start (regerror e) f = tt
  regex-InLine re line start starved f = f

  pub match_pattern-InLine :
      (line : List ℕ) (start : ℕ)
      → start ≤ length line
      → InLine line start (match_pattern E o pattern line start)
  match_pattern-InLine line start h = elim (Bool-cases o.fixed) [
    | inl f ↦
        rw (match_is_fixed E o pattern line start f)
          (fixed-InLine line start _ h (match_fixed-Finds o pattern.string line start pos))
    | inr f ↦ elim (Option-cases pattern.compiled) [
      | inl e ↦ rw (match_is_none E o pattern line start f e) tt
      | inr (re, e) ↦ rw (match_is_compiled E o pattern re line start e) (
          regex-InLine re line start _
            (match_regex-FindsRegex E lawful o re line start pattern.string f h))
    ]
  ]

  flush-LineEnds :
      (line : List ℕ) (start : ℕ) (s : Sink) → LineEnds (flush E alloc o pattern r line start s)
  unfolding flush
  flush-LineEnds line start s =
      and_then-LineEnds (write_string alloc s (drop start line)) (λ t. (t, flushed))
        (λ t. record { in_time = λ e. cc })

  on_match-LineEnds :
      (again : ℕ → Bool → Sink → Sink × LineEnd) (line : List ℕ) (start : ℕ) (last : Bool)
      (m : Span) (subs : List (Option Span)) (sink : Sink)
      → start + m.eo ≤ length line
      → ((start' : ℕ) (last' : Bool) (s : Sink)
          → start < start'
          → start' ≤ length line
          → LineEnds (again start' last' s))
      → LineEnds (on_match E alloc o pattern r again line start last m subs sink)
  unfolding on_match
  on_match-LineEnds again line start last m subs sink within h =
      if_both LineEnds
        (get_or line start 0 == 0 && (ltb 0 start && get_or line (start - 1) 0 == newline))
        (λ _. flush-LineEnds line start sink)
        (λ _. and_then-LineEnds (write_before E alloc o pattern r line start m sink) _ (λ s1.
          and_then-LineEnds (write_match E alloc o pattern r line start last m subs s1) _ (λ s2.
            if_both LineEnds (get_or line start 0 == 0) (λ _. flush-LineEnds line start s2)
              (λ b.
                if_both LineEnds (m.eo == 0)
                  (λ _.
                    and_then-LineEnds (write_string alloc s2 (take 1 (drop start line))) _ (λ s3.
                      h (start + 1) true s3 (omega arith) (omega (arith, before_end line start b))))
                  (λ z. h (start + m.eo) false s2 (omega (arith, ==→ne m.eo 0 z)) within)))))

  after_match-LineEnds :
      (fuel : ℕ) (line : List ℕ) (start : ℕ) (last : Bool) (sink : Sink) (x : Match)
      → match_pattern E o pattern line start ≡ x
      → InLine line start x
      → ((start' : ℕ) (last' : Bool) (s : Sink)
          → start < start'
          → start' ≤ length line
          → LineEnds (replace_line E alloc o pattern r fuel line start' last' s))
      → LineEnds (replace_line E alloc o pattern r (suc fuel) line start last sink)
  unfolding replace_line
  after_match-LineEnds fuel line start last sink (matched m subs) e w h =
      rw (replace_line, e) (on_match-LineEnds _ line start last m subs sink w h)
  after_match-LineEnds fuel line start last sink no_match e w h =
      rw (replace_line, e) (flush-LineEnds line start sink)
  after_match-LineEnds fuel line start last sink (regerror x) e w h =
      rw (replace_line, e) (record { in_time = λ z. cc })
  after_match-LineEnds fuel line start last sink starved e w h = absurd w

  replace_line-LineEnds :
      (fuel : ℕ) (line : List ℕ) (start : ℕ) (last : Bool) (sink : Sink)
      → start ≤ length line
      → length line < fuel + start
      → LineEnds (replace_line E alloc o pattern r fuel line start last sink)
  replace_line-LineEnds zero line start last sink h enough = absurd (omega arith)
  replace_line-LineEnds (suc fuel) line start last sink h enough =
      after_match-LineEnds fuel line start last sink _ refl (match_pattern-InLine line start h)
        (λ start' last' s lt le. replace_line-LineEnds fuel line start' last' s le (omega arith))

  abbrev Out : Type 0
  Out = Ended Sink (Sink × LineEnd)

  one_step-FileEnds :
      (bad : Bool) (w : Sink × LineEnd) (again : Sink → Out)
      → LineEnds w
      → ((s : Sink) → FileEnds alloc bad (again s))
      → FileEnds alloc bad (elim (step_of w) [ next s ↦ again s | return x ↦ returned x ])
  unfolding step_of
  one_step-FileEnds bad (s, flushed) again h k = k s
  one_step-FileEnds bad (s, write_failed) again h k = tt
  one_step-FileEnds bad (s, regex_failed e) again h k = tt
  one_step-FileEnds bad (s, out_of_rounds) again h k = absurd (h.in_time refl)

  fold_lines-FileEnds :
      (bad : Bool) (ls : List (List ℕ)) (sink : Sink)
      → FileEnds alloc bad (fold_lines (λ _. true) (line_step E alloc o pattern r) ls sink)
  unfolding fold_lines line_step
  fold_lines-FileEnds bad [] sink = tt
  fold_lines-FileEnds bad (l ∷ ls) sink =
      one_step-FileEnds bad (replace_line E alloc o pattern r (length l + 1) l 0 true sink)
        (fold_lines (λ _. true) (line_step E alloc o pattern r) ls)
        (replace_line-LineEnds (length l + 1) l 0 true sink (omega arith) (omega arith))
        (λ s. fold_lines-FileEnds bad ls s)

  Over-FileEnds :
      (ls : List (List ℕ)) (f₀ : File) (sink : Sink) (out : Out × Reader × File)
      → Over (λ _. true) (line_step E alloc o pattern r) o.binary alloc ls f₀ sink out
      → FileEnds alloc f₀.bad out.0
  Over-FileEnds ls f₀ sink (done s, reader, f) (e, c, b, z) = tt
  Over-FileEnds ls f₀ sink (returned x, reader, f) (e, c, b, z) =
      subst (FileEnds alloc f₀.bad) (sym e) (fold_lines-FileEnds f₀.bad ls sink)
  Over-FileEnds ls f₀ sink (loop_starved, reader, f) (e, c, b, z) =
      subst (FileEnds alloc f₀.bad) (sym e) (fold_lines-FileEnds f₀.bad ls sink)
  Over-FileEnds ls f₀ sink (failed t x, reader, f) (c, h) = h

  pub replace_string-FileEnds :
      (reader : Reader) (f : File) (sink : Sink)
      → 2 ≤ reader.buffer_size
      → f.eof ≡ false
      → f.error ≡ false
      → FileEnds alloc f.bad (replace_string E alloc o pattern r reader f sink).0
  unfolding replace_string
  replace_string-FileEnds reader f sink big eof error =
      Over-FileEnds (read_lines o.binary (reader.buffer 0) f.rest) f sink _ (
        whole_file-Over (λ _. true) (line_step E alloc o pattern r) o.binary alloc reader f sink big
          eof error)
