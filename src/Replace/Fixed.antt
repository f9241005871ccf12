-- ===== src/Replace/Fixed.antt =====
-- replace_string with fixed strings: every line, and so the whole file, is rewritten as a plain
-- search and replace from left to right would do it.
use rrep.Base.{
  ℕ, zero, suc, ◌+◌, ◌≡◌, ◌≤◌, ◌<◌, refl, sym, ap, ◌∙◌, ◌⊎◌, inl, inr, Bool, true, false, Option,
  List, [], ◌∷◌, ◌++◌, arith, Bool-cases, append-nil, append_assoc, length, lt→ltb, ne→==, take,
  drop, drop-drop, ◌==◌, length-drop, get_or,
}
use rrep.Options.{Options}
use rrep.Pattern.{
  Engine, Pattern, Match, matched, no_match, regerror, starved, match_pattern, match_fixed, cstr,
  string_at, Span,
}
use rrep.Pattern.Strings.{Occurs, cstr-drop, length-cstr}
use rrep.Pattern.Fixed.{AnyPlace, Located, Finds, match_fixed-Finds, string_at-add}
use rrep.Replacement.{Replace}
use rrep.Replace.{
  Sink, written, LineEnd, flushed, and_then, flush, write_match, write_replacement, write_string,
  on_match, replace_line,
}
use rrep.Replace.Write.{InSize, EmitsLine, and_then-EmitsLine, Emits, write_string-Emits}
use rrep.Replace.Global.{
  replace_all, replace_all_none, replace_all_first, cstr-append-drop, take-cstr,
}

-- A C string that is not empty does not begin with NUL.
no_break :
    (line : List ℕ) (start : ℕ)
    → 0 < length (string_at line start)
    → (get_or line start 0 == 0) ≡ false
unfolding cstr
no_break [] zero h = absurd (omega arith)
no_break [] (suc start) h = absurd (omega arith)
no_break (c ∷ line) zero h = elim (Bool-cases (c == 0)) [
  | inl z ↦ absurd (omega (arith, (rw z at h)))
  | inr z ↦ z
]
no_break (c ∷ line) (suc start) h = no_break line start h

module _ (E : Engine) (alloc : ℕ → Bool) (o : Options) (pattern : Pattern E) (r : Replace)
    (fixed : o.fixed ≡ true) (any : AnyPlace o) (pos : 0 < length pattern.string) where
  pub match_is_fixed :
      (line : List ℕ) (start : ℕ)
      → match_pattern E o pattern line start ≡ match_fixed o pattern.string line start
  unfolding match_pattern
  match_is_fixed line start = rw fixed

  write_replacement-Emits :
      (sink : Sink) (line : List ℕ) (start : ℕ) (m : Span) (subs : List (Option Span))
      → InSize sink
      → Emits alloc sink r.string (write_replacement alloc o sink line start m subs r)
  unfolding write_replacement
  write_replacement-Emits sink line start m subs v =
      rw fixed (write_string-Emits alloc sink r.string v)

  write_match_eq :
      (line : List ℕ) (start : ℕ) (last : Bool) (m : Span) (subs : List (Option Span)) (sink : Sink)
      → 0 < m.eo
      → write_match E alloc o pattern r line start last m subs sink
        ≡ write_replacement alloc o sink line start m subs r
  unfolding write_match
  write_match_eq line start true m subs sink h = refl
  write_match_eq line start false m subs sink h = rw (lt→ltb 0 m.eo h)

  -- With a match of at least one character, in front of the end of the C string, the round writes
  -- the text before it and the replacement.
  on_match_eq :
      (again : ℕ → Bool → Sink → Sink × LineEnd) (line : List ℕ) (start : ℕ) (last : Bool)
      (m : Span) (subs : List (Option Span)) (sink : Sink)
      → (get_or line start 0 == 0) ≡ false
      → 0 < m.eo
      → on_match E alloc o pattern r again line start last m subs sink
        ≡ and_then (write_string alloc sink (take m.so (drop start line))) (λ s1.
          and_then
            (write_match E alloc o pattern r line start last m subs s1)
            (again (start + m.eo) false))
  unfolding on_match
  on_match_eq again line start last m subs sink nb wide =
      rw (nb, lt→ltb 0 m.eo wide, ne→== m.eo 0 (omega arith))

  on_match_fixed :
      (again : ℕ → Bool → Sink → Sink × LineEnd) (line : List ℕ) (start : ℕ) (last : Bool)
      (m : Span) (subs : List (Option Span)) (sink : Sink) (b : List ℕ)
      → (get_or line start 0 == 0) ≡ false
      → 0 < m.eo
      → InSize sink
      → ((s : Sink) → InSize s → EmitsLine alloc s b (again (start + m.eo) false s))
      → EmitsLine alloc sink
          (take m.so (drop start line) ++ (r.string ++ b))
          (on_match E alloc o pattern r again line start last m subs sink)
  on_match_fixed again line start last m subs sink b nb wide v h =
      rw (on_match_eq again line start last m subs sink nb wide) (
        and_then-EmitsLine alloc sink (take m.so (drop start line)) (r.string ++ b)
          (write_string alloc sink (take m.so (drop start line))) after v
          (write_string-Emits alloc sink (take m.so (drop start line)) v)
          (λ s1 v1.
            and_then-EmitsLine alloc s1 r.string b
              (write_match E alloc o pattern r line start last m subs s1)
              (again (start + m.eo) false) v1
              (rw (write_match_eq line start last m subs s1 wide)
                (write_replacement-Emits s1 line start m subs v1))
              h))
    where
      after : Sink → Sink × LineEnd
      after s1 =
          and_then (write_match E alloc o pattern r line start last m subs s1)
            (again (start + m.eo) false)

  -- What the line becomes from a position on: its C string is rewritten, what stands behind a NUL is
  -- not.
  abbrev pub rewritten_from : List ℕ → ℕ → List ℕ
  rewritten_from line start =
      replace_all pattern.string r.string zero (string_at line start)
      ++ drop (length (cstr line)) line

  -- From a position inside the C string, the rest of the bytes.
  rest_split :
      (line : List ℕ) (start : ℕ)
      → start ≤ length (cstr line)
      → string_at line start ++ drop (length (cstr line)) line ≡ drop start line
  rest_split line start h =
      ap (λ t. string_at line start ++ t) behind ∙ cstr-append-drop (drop start line)
    where
      width : start + length (string_at line start) ≡ length (cstr line)
      width = omega (arith, ap length (cstr-drop start line h), length-drop start (cstr line))

      behind :
          drop (length (cstr line)) line ≡ drop (length (string_at line start)) (drop start line)
      behind = rw (drop-drop (length (string_at line start)) start line, width)

  flush-EmitsLine :
      (line : List ℕ) (start : ℕ) (sink : Sink)
      → InSize sink
      → EmitsLine alloc sink (drop start line) (flush E alloc o pattern r line start sink)
  unfolding flush
  flush-EmitsLine line start sink v = rw (append-nil (drop start line)) at (
      and_then-EmitsLine alloc sink (drop start line) [] (write_string alloc sink (drop start line))
        (λ s. (s, flushed)) v (write_string-Emits alloc sink (drop start line) v)
        (λ s w. (sym (append-nil (written s)), w)))

  -- The work of one round of the loop.
  line_stops :
      (fuel : ℕ) (line : List ℕ) (start : ℕ) (last : Bool) (sink : Sink)
      → match_fixed o pattern.string line start ≡ no_match
      → replace_line E alloc o pattern r (suc fuel) line start last sink
        ≡ flush E alloc o pattern r line start sink
  unfolding replace_line
  line_stops fuel line start last sink h = rw (match_is_fixed line start, h, replace_line)

  line_matches :
      (fuel : ℕ) (line : List ℕ) (start : ℕ) (last : Bool) (sink : Sink) (m : Span)
      (subs : List (Option Span))
      → match_fixed o pattern.string line start ≡ matched m subs
      → replace_line E alloc o pattern r (suc fuel) line start last sink
        ≡ on_match E alloc o pattern r
            (λ start' last' sink'. replace_line E alloc o pattern r fuel line start' last' sink')
            line
            start
            last
            m
            subs
            sink
  unfolding replace_line
  line_matches fuel line start last sink m subs h = rw (match_is_fixed line start, h, replace_line)

  -- A match that is located cuts what is rewritten.
  cut :
      (line : List ℕ) (start : ℕ) (m : Span) (subs : List (Option Span))
      → start ≤ length (cstr line)
      → Located o pattern.string line start 0 m subs
      → rewritten_from line start
        ≡ take m.so (drop start line) ++ (r.string ++ rewritten_from line (start + m.eo))
  cut line start m subs h l =
      rw (first, take-cstr m.so (drop start line) (omega (arith, l.width, l.within)), later)
        (append_assoc (take m.so here)
            (r.string
              ++ replace_all pattern.string r.string zero
                  (drop (m.so + length pattern.string) here))
            behind
          ∙ ap (λ t. take m.so here ++ t)
              (append_assoc r.string
                (replace_all pattern.string r.string zero
                  (drop (m.so + length pattern.string) here))
                behind))
    where
      here : List ℕ
      here = string_at line start

      behind : List ℕ
      behind = drop (length (cstr line)) line

      first :
          replace_all pattern.string r.string zero here
          ≡ take m.so here
            ++ (r.string
                ++ replace_all pattern.string r.string zero
                    (drop (m.so + length pattern.string) here))
      first =
          replace_all_first pattern.string r.string here m.so pos l.occurs
            (λ j lt. l.first any j (omega arith) lt)

      later : string_at line (start + m.eo) ≡ drop (m.so + length pattern.string) here
      later = string_at-add line start m.eo l.within ∙ ap (λ k. drop k here) l.width

  -- What a search for a fixed string can return.
  pub found_or_not :
      (line : List ℕ) (start : ℕ) (x : Match)
      → Finds o pattern.string line start 0 x
      → ((x ≡ no_match) × ((j : ℕ) → ¬ Occurs pattern.string (string_at line start) j))
        ⊎ ((m : Span) × (subs : List (Option Span)) × (x ≡ matched m subs)
            × Located o pattern.string line start 0 m subs)
  found_or_not line start (matched m subs) f = inr (m, subs, refl, f)
  found_or_not line start no_match f = inl (refl, λ j. f any j (omega arith))
  found_or_not line start (regerror e) f = absurd f
  found_or_not line start starved f = absurd f

  pub fixed_line :
      (fuel : ℕ) (line : List ℕ) (start : ℕ) (last : Bool) (sink : Sink)
      → start ≤ length (cstr line)
      → length line < fuel + start
      → InSize sink
      → EmitsLine alloc sink
          (rewritten_from line start)
          (replace_line E alloc o pattern r fuel line start last sink)
  fixed_line zero line start last sink h enough v = absurd (omega (arith, length-cstr line))
  fixed_line (suc fuel) line start last sink h enough v =
      elim (found_or_not line start (match_fixed o pattern.string line start)
        (match_fixed-Finds o pattern.string line start pos)) [
          | inl (e, nowhere) ↦
              rw
                (
                  line_stops fuel line start last sink e,
                  replace_all_none pattern.string r.string (string_at line start) nowhere,
                  rest_split line start h,
                )
                (flush-EmitsLine line start sink v)
          | inr (m, subs, e, l) ↦
              let inside : start + m.eo ≤ length (cstr line) = omega (
                arith,
                l.within,
                ap length (cstr-drop start line h),
                length-drop start (cstr line),
              ) in
              let wide : 0 < m.eo = omega (arith, l.width) in
              rw (line_matches fuel line start last sink m subs e, cut line start m subs h l)
                (on_match_fixed _ line start last m subs sink (rewritten_from line (start + m.eo))
                  (no_break line start (omega (arith, l.within))) wide v
                  (λ s w. fixed_line fuel line (start + m.eo) false s inside (omega arith) w))
        ]
