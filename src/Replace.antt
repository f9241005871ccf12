-- ===== src/Replace.antt =====
-- The replacement of src/rrep.c: write_string, write_replacement and replace_string, which copy a
-- file line by line to a stream or to file_buffer.
pub mod Write
pub mod Global
pub mod Fixed
pub mod Text
pub mod WholeFile
pub mod Ends
pub mod Pieces
pub mod Rounds
pub mod Edits
pub mod EditedFile
pub mod Expand
use rrep.Base.{
  ℕ, zero, suc, ◌+◌, ◌-◌, Bool, true, false, not, ◌&&◌, ◌||◌, Option, none, some, List, [], ◌∷◌,
  ◌++◌, leb, ltb, ◌==◌, if◌then◌else◌, length, take, drop, get_or, get_elem?,
}
use rrep.Options.{Options}
use rrep.Bufferio.{File, Reader, newline, init_buffer_size}
use rrep.Bufferio.Memory.{Block, window}
use rrep.Pattern.{Engine, Pattern, Span, Match, matched, no_match, regerror, starved, match_pattern}
use rrep.Replacement.{Replace}
use rrep.EachLine
use rrep.EachLine.{Step, next, return, Ended}

-- Where the output goes: to a stream, or to file_buffer, whose size is kept and in which `pos`
-- stands behind the bytes written so far.
pub data Sink : Type 0 where
  stream : List ℕ → Sink
  buffered : ℕ → List ℕ → Sink

abbrev pub written : Sink → List ℕ
written (stream bytes) = bytes
written (buffered size bytes) = bytes

-- An operation on the sink and its failure flag.
abbrev pub Wrote : Type 0
Wrote = Sink × Bool

-- `alloc n` says whether realloc can give n bytes.
module _ (alloc : ℕ → Bool) where
  -- The loop that enlarges file_buffer until `len` bytes fit behind `pos`: the size it has reached,
  -- and whether realloc failed.
  unfoldable pub make_room : ℕ → ℕ → ℕ → ℕ → ℕ × Bool
  make_room zero size pos len = (size, true)
  make_room (suc fuel) size pos len = elim (ltb (size - pos) len) [
    | false ↦ (size, false)
    | true ↦ elim (alloc (size + init_buffer_size)) [
      | false ↦ (size, true)
      | true ↦ make_room fuel (size + init_buffer_size) pos len
    ]
  ]

  -- write_string. A round of the loop gives more than one byte, so the fuel is enough.
  unfoldable pub write_string : Sink → List ℕ → Wrote
  unfolding make_room
  write_string (stream bytes) string = (stream (bytes ++ string), false)
  write_string (buffered size bytes) string =
      let (size', failed) = make_room (length string + 1) size (length bytes) (length string) in
      (buffered size' (if failed then bytes else bytes ++ string), failed)

  -- failure_flag |= write_string (...)
  unfoldable pub put : Wrote → List ℕ → Wrote
  unfolding write_string
  put (sink, failed) string =
      let (sink', failed') = write_string sink string in (sink', failed || failed')

  -- match[i]
  abbrev pub match_at : Span → List (Option Span) → ℕ → Option Span
  match_at m subs zero = some m
  match_at m subs (suc i) = elim (get_elem? subs i) [ none ↦ none | some x ↦ x ]

  -- The text that match[i] stands for; nothing if it is not available.
  abbrev pub group_text : List ℕ → ℕ → Option Span → List ℕ
  group_text line start none = []
  group_text line start (some m) = take (m.eo - m.so) (drop (start + m.so) line)

  -- The loop of write_replacement over the references and the parts that follow them. A reference
  -- that is not available writes nothing.
  unfoldable pub put_groups :
      List ℕ → ℕ → (ℕ → Option Span) → Wrote → List ℕ → List Block → List ℕ → Wrote
  put_groups line start match w (i ∷ is) (b ∷ bs) (n ∷ ns) =
      let w' : Wrote = elim (match i) [
        | none ↦ w
        | some m ↦ put w (group_text line start (some m))
      ] in
      put_groups line start match (put w' (window b 0 n)) is bs ns
  put_groups line start match w _ _ _ = w

  unfoldable pub put_parts :
      List ℕ → ℕ → (ℕ → Option Span) → Wrote → List ℕ → List Block → List ℕ → Wrote
  unfolding put_groups put
  put_parts line start match w is (b ∷ bs) (n ∷ ns) =
      put_groups line start match (put w (window b 0 n)) is bs ns
  put_parts line start match w is _ _ = w

  -- write_replacement. The flag starts as false.
  unfoldable pub write_replacement :
      Options → Sink → List ℕ → ℕ → Span → List (Option Span) → Replace → Wrote
  unfolding put_parts
  write_replacement o sink line start m subs r =
      if o.fixed
      then put (sink, false) r.string
      else put_parts line start (match_at m subs) (sink, false) r.sub r.part r.part_len

-- How the work on a line ends.
pub data LineEnd : Type 0 where
  flushed : LineEnd
  write_failed : LineEnd
  regex_failed : ℕ → LineEnd
  out_of_rounds : LineEnd

-- A line whose work has failed ends the loop over the lines with FAILURE.
unfoldable pub step_of : Sink × LineEnd → Step Sink (Sink × LineEnd)
step_of (sink, flushed) = next sink
step_of (sink, write_failed) = return (sink, write_failed)
step_of (sink, regex_failed e) = return (sink, regex_failed e)
step_of (sink, out_of_rounds) = return (sink, out_of_rounds)

-- A write that failed ends the work on the line.
abbrev pub and_then : Wrote → (Sink → Sink × LineEnd) → Sink × LineEnd
and_then w k = elim (w.1) [ true ↦ (w.0, write_failed) | false ↦ k w.0 ]

module _ (E : Engine) (alloc : ℕ → Bool) (o : Options) (pattern : Pattern E) (r : Replace) where
  -- The rest of the line goes to the output.
  unfoldable pub flush : List ℕ → ℕ → Sink → Sink × LineEnd
  flush line start sink =
      and_then (write_string alloc sink (drop start line)) (λ sink'. (sink', flushed))

  -- The text before a match that is not at the start.
  unfoldable pub write_before : List ℕ → ℕ → Span → Sink → Wrote
  write_before line start m sink =
      if ltb 0 m.eo then write_string alloc sink (take m.so (drop start line)) else (sink, false)

  -- An empty match right behind another one is not replaced.
  unfoldable pub write_match : List ℕ → ℕ → Bool → Span → List (Option Span) → Sink → Wrote
  write_match line start last_empty m subs sink =
      if last_empty || ltb 0 m.eo
      then write_replacement alloc o sink line start m subs r
      else (sink, false)

  -- The body of the inner loop for a match. The NUL that the source puts behind the text before the
  -- match is taken away again before anything reads it.
  unfoldable pub on_match :
      (ℕ → Bool → Sink → Sink × LineEnd)
      → List ℕ
      → ℕ
      → Bool
      → Span
      → List (Option Span)
      → Sink
      → Sink × LineEnd
  unfolding flush write_before write_match
  on_match again line start last_empty m subs sink =
      let break_flag = get_or line start 0 == 0 in
      if break_flag && (ltb 0 start && get_or line (start - 1) 0 == newline)
      then flush line start sink
      else and_then (write_before line start m sink) λ s1.
        and_then (write_match line start last_empty m subs s1) λ s2.
          if break_flag
          then flush line start s2
          else if m.eo == 0
          then and_then (write_string alloc s2 (take 1 (drop start line))) (again (start + 1) true)
          else again (start + m.eo) false s2

  -- The inner loop of replace_string, from a position of the line on.
  unfoldable pub replace_line : ℕ → List ℕ → ℕ → Bool → Sink → Sink × LineEnd
  replace_line zero line start last_empty sink = (sink, out_of_rounds)
  replace_line (suc fuel) line start last_empty sink = elim (match_pattern E o pattern line start) [
    | no_match ↦ flush line start sink
    | regerror e ↦ (sink, regex_failed e)
    | starved ↦ (sink, out_of_rounds)
    | matched m subs ↦
        on_match (λ start' last sink'. replace_line fuel line start' last sink') line start
          last_empty m subs sink
  ]

  -- Each round moves `start` forward, to the end of the line at most.
  unfoldable pub line_step : List ℕ → Sink → Step Sink (Sink × LineEnd)
  unfolding replace_line step_of
  line_step line sink = step_of (replace_line (length line + 1) line 0 true sink)

  -- replace_string, from the sink at its start. It succeeds if the loop ends at the end of the file.
  unfoldable pub replace_string : Reader → File → Sink → Ended Sink (Sink × LineEnd) × Reader × File
  unfolding line_step
  replace_string reader file sink =
      EachLine.whole_file (λ _. true) line_step o.binary alloc reader file sink
