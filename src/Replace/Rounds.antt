-- ===== src/Replace/Rounds.antt =====
-- A round of the loop of replace_string in a line, in each of its four cases.
use rrep.Base.{
  ℕ, ◌+◌, ◌<◌, ◌≡◌, refl, Bool, true, false, Option, List, arith, take, drop, ne→==, eq→==, lt→ltb,
  ge→ltb,
}
use rrep.Options.{Options}
use rrep.Pattern.{Engine, Pattern, Span}
use rrep.Replacement.{Replace}
use rrep.Replace.{
  Sink, LineEnd, and_then, flush, write_before, write_match, write_replacement, write_string,
  on_match,
}
use rrep.Replace.Pieces.{at_nul, behind_newline}

module _ (E : Engine) (alloc : ℕ → Bool) (o : Options) (pattern : Pattern E) (r : Replace)
    (line : List ℕ) where
  pub wide_write_match :
      (sink : Sink) (start : ℕ) (last : Bool) (m : Span) (subs : List (Option Span))
      → 0 < m.eo
      → write_match E alloc o pattern r line start last m subs sink
        ≡ write_replacement alloc o sink line start m subs r
  unfolding write_match
  wide_write_match sink start true m subs h = refl
  wide_write_match sink start false m subs h = rw (lt→ltb 0 m.eo h)

  -- The round for a match, in each of its four cases.
  abbrev pub Again : Type 0
  Again = ℕ → Bool → Sink → Sink × LineEnd

  pub on_match_line_end :
      (again : Again) (start : ℕ) (last : Bool) (m : Span) (subs : List (Option Span)) (sink : Sink)
      → at_nul E o pattern line start ≡ true
      → behind_newline E o pattern line start ≡ true
      → on_match E alloc o pattern r again line start last m subs sink
        ≡ flush E alloc o pattern r line start sink
  unfolding on_match
  on_match_line_end again start last m subs sink n b = rw (n, b)

  pub on_match_text_end :
      (again : Again) (start : ℕ) (last : Bool) (m : Span) (subs : List (Option Span)) (sink : Sink)
      → at_nul E o pattern line start ≡ true
      → behind_newline E o pattern line start ≡ false
      → m.eo ≡ 0
      → on_match E alloc o pattern r again line start last m subs sink
        ≡ and_then
            (write_match E alloc o pattern r line start last m subs sink)
            (flush E alloc o pattern r line start)
  unfolding on_match write_before
  on_match_text_end again start last m subs sink n b e = rw (n, b, ge→ltb 0 m.eo (omega arith))

  pub on_match_empty :
      (again : Again) (start : ℕ) (last : Bool) (m : Span) (subs : List (Option Span)) (sink : Sink)
      → at_nul E o pattern line start ≡ false
      → m.eo ≡ 0
      → on_match E alloc o pattern r again line start last m subs sink
        ≡ and_then (write_match E alloc o pattern r line start last m subs sink) (λ s.
          and_then (write_string alloc s (take 1 (drop start line))) (again (start + 1) true))
  unfolding on_match write_before
  on_match_empty again start last m subs sink n e =
      rw (n, ge→ltb 0 m.eo (omega arith), eq→== m.eo 0 e)

  pub on_match_wide :
      (again : Again) (start : ℕ) (last : Bool) (m : Span) (subs : List (Option Span)) (sink : Sink)
      → at_nul E o pattern line start ≡ false
      → 0 < m.eo
      → on_match E alloc o pattern r again line start last m subs sink
        ≡ and_then (write_string alloc sink (take m.so (drop start line))) (λ s.
          and_then
            (write_match E alloc o pattern r line start last m subs s)
            (again (start + m.eo) false))
  unfolding on_match write_before
  on_match_wide again start last m subs sink n wide =
      rw (n, lt→ltb 0 m.eo wide, ne→== m.eo 0 (omega arith))
