-- ===== src/Replace/Edits.antt =====
-- replace_string writes each line with its matches replaced.
use rrep.Base.{
  ℕ, zero, suc, ◌+◌, ◌≤◌, ◌<◌, ◌≡◌, ◌≢◌, refl, sym, ap, ◌∙◌, inl, inr, Bool, true, false, Option,
  List, [], ◌∷◌, ◌++◌, arith, length, take, drop, ◌==◌, append-nil, append_assoc, Bool-cases, ==→ne,
  ==→eq, ge→ltb,
}
use rrep.Options.{Options}
use rrep.Pattern.{Engine, Pattern, Span, Match, matched, no_match, regerror, starved, match_pattern}
use rrep.Pattern.Regex.{IsLawful}
use rrep.Pattern.Place.{Placed, match_pattern-Placed, before_end}
use rrep.Replacement.{Replace}
use rrep.Replace.{
  Sink, Wrote, written, LineEnd, flushed, write_failed, regex_failed, out_of_rounds, and_then,
  flush, write_match, write_replacement, write_string, on_match, replace_line,
}
use rrep.Replace.Write.{
  InSize, Refused, Emits, nothing-Emits, write_string-Emits, and_then_failed, and_then_goes,
}
use rrep.Replace.Rounds.{
  Again, wide_write_match, on_match_line_end, on_match_text_end, on_match_empty, on_match_wide,
}
use rrep.Replace.Pieces.{
  Piece, kept, found, replaced, target, at_nul, behind_newline, Replaces, no_more, line_end,
  text_end, empty_match, wide_match,
}

module _ (E : Engine) (lawful : IsLawful E) (alloc : ℕ → Bool) (o : Options) (pattern : Pattern E)
    (r : Replace) (pos : 0 < length pattern.string) (line : List ℕ)
    (text : ℕ → Span → List (Option Span) → List ℕ)
    (writes : (start : ℕ) (m : Span) (subs : List (Option Span)) (sink : Sink)
      → InSize sink
      → Emits alloc sink
          (text start m subs)
          (write_replacement alloc o sink line start m subs r)) where
  -- How the work on the line ends from a position on: with the pieces written, their matches
  -- replaced; at a refusal; or at an error of regexec.
  abbrev pub Edits : Sink → ℕ → Bool → Sink × LineEnd → Type 0
  Edits sink start last (s, flushed) =
      (ps : List Piece) × Replaces E o pattern line start last ps
      × (written s ≡ written sink ++ target text ps)
      × InSize s
  Edits sink start last (s, write_failed) = Refused alloc
  Edits sink start last (s, regex_failed e) =
      (k : ℕ) × (match_pattern E o pattern line k ≡ regerror e)
  Edits sink start last (s, out_of_rounds) = ⊥

  -- What was written before stands in front of the pieces.
  Edits-after :
      (sink s : Sink) (start start' : ℕ) (last last' : Bool) (a : List ℕ)
      (more : List Piece → List Piece) (out : Sink × LineEnd)
      → written s ≡ written sink ++ a
      → ((ps : List Piece)
          → Replaces E o pattern line start' last' ps
          → Replaces E o pattern line start last (more ps)
            × (target text (more ps) ≡ a ++ target text ps))
      → Edits s start' last' out
      → Edits sink start last out
  Edits-after sink s start start' last last' a more (t, flushed) e h (ps, d, w, v) =
      let (d', q) = h ps d in
      (
        more ps,
        d',
        w
            ∙ ap (λ u. u ++ target text ps) e
            ∙ append_assoc (written sink) a (target text ps)
            ∙ ap (λ u. written sink ++ u) (sym q),
        v,
      )
  Edits-after sink s start start' last last' a more (t, write_failed) e h d = d
  Edits-after sink s start start' last last' a more (t, regex_failed x) e h d = d
  Edits-after sink s start start' last last' a more (t, out_of_rounds) e h d = d

  -- A write, and what follows it.
  after_write :
      (sink s : Sink) (start : ℕ) (last : Bool) (a : List ℕ) (w : Wrote) (k : Sink → Sink × LineEnd)
      → InSize s
      → Emits alloc s a w
      → ((t : Sink) → InSize t → written t ≡ written s ++ a → Edits sink start last (k t))
      → Edits sink start last (and_then w k)
  after_write sink s start last a w k v e h = elim (Bool-cases w.1) [
    | inl f ↦ rw (and_then_failed alloc w k f) (e.refused f)
    | inr f ↦ rw (and_then_goes alloc w k f) (h w.0 (e.in_size v) (e.appended f))
  ]

  flush-Edits :
      (sink s : Sink) (start : ℕ) (last : Bool) (a : List ℕ) (ps : List Piece)
      → InSize s
      → written s ≡ written sink ++ a
      → Replaces E o pattern line start last ps
      → target text ps ≡ a ++ drop start line
      → Edits sink start last (flush E alloc o pattern r line start s)
  unfolding flush
  flush-Edits sink s start last a ps v e d q =
      after_write sink s start last (drop start line) (write_string alloc s (drop start line))
        (λ t. (t, flushed)) v (write_string-Emits alloc s (drop start line) v)
        (λ t v' w. (
          ps,
          d,
          w
              ∙ ap (λ u. u ++ drop start line) e
              ∙ append_assoc (written sink) a (drop start line)
              ∙ ap (λ u. written sink ++ u) (sym q),
          v',
        ))

  -- An empty match is replaced where no match stands right before it.
  abbrev text_of : Bool → ℕ → Span → List (Option Span) → List ℕ
  text_of true start m subs = text start m subs
  text_of false start m subs = []

  target-replaced :
      (last : Bool) (start : ℕ) (m : Span) (subs : List (Option Span)) (ps : List Piece)
      → target text (replaced last start m subs ps) ≡ text_of last start m subs ++ target text ps
  target-replaced true start m subs ps = refl
  target-replaced false start m subs ps = refl

  write_match-Emits :
      (sink : Sink) (start : ℕ) (last : Bool) (m : Span) (subs : List (Option Span))
      → InSize sink
      → m.eo ≡ 0
      → Emits alloc sink
          (text_of last start m subs)
          (write_match E alloc o pattern r line start last m subs sink)
  unfolding write_match
  write_match-Emits sink start true m subs v e = writes start m subs sink v
  write_match-Emits sink start false m subs v e =
      rw (ge→ltb 0 m.eo (omega arith)) (nothing-Emits alloc sink)

  -- What a search from a position returns.
  abbrev IsPlaced : ℕ → Match → Type 0
  IsPlaced = Placed E lawful o pattern pos line

  -- The rounds behind which the search goes on.
  module _ (again : Again E alloc o pattern r line) (start : ℕ) (last : Bool) (m : Span)
      (subs : List (Option Span)) (sink : Sink)
      (found_it : match_pattern E o pattern line start ≡ matched m subs) (v : InSize sink)
      (next_round : (start' : ℕ) (last' : Bool) (s : Sink)
        → start < start'
        → start' ≤ length line
        → InSize s
        → Edits s start' last' (again start' last' s)) where
    abbrev pass : Sink → Sink × LineEnd
    pass s = and_then (write_string alloc s (take 1 (drop start line))) (again (start + 1) true)

    abbrev write : Sink → Sink × LineEnd
    write s =
        and_then (write_match E alloc o pattern r line start last m subs s)
          (again (start + m.eo) false)

    empty_round :
        at_nul E o pattern line start ≡ false
        → m.eo ≡ 0
        → Edits sink start last (on_match E alloc o pattern r again line start last m subs sink)
    empty_round n z =
        rw (on_match_empty E alloc o pattern r line again start last m subs sink n z) (
          after_write sink sink start last (text_of last start m subs)
            (write_match E alloc o pattern r line start last m subs sink) pass v
            (write_match-Emits sink start last m subs v z)
            (λ t v' w.
              after_write sink t start last (take 1 (drop start line))
                (write_string alloc t (take 1 (drop start line))) (again (start + 1) true) v'
                (write_string-Emits alloc t (take 1 (drop start line)) v')
                (λ t' v'' w'.
                  Edits-after sink t' start (start + 1) last true
                    (text_of last start m subs ++ take 1 (drop start line))
                    (λ ps. replaced last start m subs (kept (take 1 (drop start line)) ∷ ps))
                    (again (start + 1) true t')
                    (w'
                      ∙ ap (λ u. u ++ take 1 (drop start line)) w
                      ∙ append_assoc (written sink) (text_of last start m subs)
                          (take 1 (drop start line)))
                    (λ ps d. (
                      empty_match start last m subs ps found_it n z d,
                      target-replaced last start m subs (kept (take 1 (drop start line)) ∷ ps)
                          ∙ sym (
                              append_assoc (text_of last start m subs) (take 1 (drop start line))
                                (target text ps)),
                    ))
                    (next_round (start + 1) true t' (omega arith)
                      (omega (arith, before_end line start n)) v''))))

    wide_round :
        start + m.eo ≤ length line
        → at_nul E o pattern line start ≡ false
        → m.eo ≢ 0
        → Edits sink start last (on_match E alloc o pattern r again line start last m subs sink)
    wide_round within n z =
        rw (on_match_wide E alloc o pattern r line again start last m subs sink n (omega arith)) (
          after_write sink sink start last (take m.so (drop start line))
            (write_string alloc sink (take m.so (drop start line))) write v
            (write_string-Emits alloc sink (take m.so (drop start line)) v)
            (λ t v' w.
              after_write sink t start last (text start m subs)
                (write_match E alloc o pattern r line start last m subs t)
                (again (start + m.eo) false) v'
                (rw (wide_write_match E alloc o pattern r line t start last m subs (omega arith))
                  (writes start m subs t v'))
                (λ t' v'' w'.
                  Edits-after sink t' start (start + m.eo) last false
                    (take m.so (drop start line) ++ text start m subs)
                    (λ ps. kept (take m.so (drop start line)) ∷ found start m subs ∷ ps)
                    (again (start + m.eo) false t')
                    (w'
                      ∙ ap (λ u. u ++ text start m subs) w
                      ∙ append_assoc (written sink) (take m.so (drop start line))
                          (text start m subs))
                    (λ ps d. (
                      wide_match start last m subs ps found_it n (omega arith) d,
                      sym (
                          append_assoc (take m.so (drop start line)) (text start m subs)
                            (target text ps)),
                    ))
                    (next_round (start + m.eo) false t' (omega arith) within v''))))

  on_match-Edits :
      (again : Again E alloc o pattern r line) (start : ℕ) (last : Bool) (m : Span)
      (subs : List (Option Span)) (sink : Sink)
      → start ≤ length line
      → match_pattern E o pattern line start ≡ matched m subs
      → IsPlaced start (matched m subs)
      → InSize sink
      → ((start' : ℕ) (last' : Bool) (s : Sink)
          → start < start'
          → start' ≤ length line
          → InSize s
          → Edits s start' last' (again start' last' s))
      → Edits sink start last (on_match E alloc o pattern r again line start last m subs sink)
  on_match-Edits again start last m subs sink h found_it (up, within, empty) v next_round =
      elim (Bool-cases (at_nul E o pattern line start)) [
        | inl n ↦ elim (Bool-cases (behind_newline E o pattern line start)) [
          | inl b ↦
              rw (on_match_line_end E alloc o pattern r line again start last m subs sink n b) (
                flush-Edits sink sink start last [] (kept (drop start line) ∷ []) v
                  (sym (append-nil (written sink))) (line_end start last n b)
                  (append-nil (drop start line)))
          | inr b ↦
              rw
                (on_match_text_end E alloc o pattern r line again start last m subs sink n b
                  (empty n))
                (after_write sink sink start last (text_of last start m subs)
                  (write_match E alloc o pattern r line start last m subs sink)
                  (flush E alloc o pattern r line start) v
                  (write_match-Emits sink start last m subs v (empty n))
                  (λ t v' w.
                    flush-Edits sink t start last (text_of last start m subs)
                      (replaced last start m subs (kept (drop start line) ∷ [])) v' w
                      (text_end start last m subs found_it n b)
                      (target-replaced last start m subs (kept (drop start line) ∷ [])
                        ∙ ap (λ u. text_of last start m subs ++ u) (append-nil (drop start line)))))
        ]
        | inr n ↦ elim (Bool-cases (m.eo == 0)) [
          | inl z ↦
              empty_round again start last m subs sink found_it v next_round n (==→eq m.eo 0 z)
          | inr z ↦
              wide_round again start last m subs sink found_it v next_round within n
                (==→ne m.eo 0 z)
        ]
      ]

  after_search :
      (fuel : ℕ) (start : ℕ) (last : Bool) (sink : Sink) (x : Match)
      → start ≤ length line
      → match_pattern E o pattern line start ≡ x
      → IsPlaced start x
      → InSize sink
      → ((start' : ℕ) (last' : Bool) (s : Sink)
          → start < start'
          → start' ≤ length line
          → InSize s
          → Edits s start' last' (replace_line E alloc o pattern r fuel line start' last' s))
      → Edits sink start last (replace_line E alloc o pattern r (suc fuel) line start last sink)
  unfolding replace_line
  after_search fuel start last sink (matched m subs) h e w v next_round =
      rw (replace_line, e) (on_match-Edits _ start last m subs sink h e w v next_round)
  after_search fuel start last sink no_match h e w v next_round =
      rw (replace_line, e)
        (flush-Edits sink sink start last [] (kept (drop start line) ∷ []) v
          (sym (append-nil (written sink))) (no_more start last e) (append-nil (drop start line)))
  after_search fuel start last sink (regerror x) h e w v next_round =
      rw (replace_line, e) (start, e)
  after_search fuel start last sink starved h e w v next_round = absurd w

  -- The loop of replace_string in a line, from any position of the line on.
  pub replace_line-Edits :
      (fuel : ℕ) (start : ℕ) (last : Bool) (sink : Sink)
      → start ≤ length line
      → length line < fuel + start
      → InSize sink
      → Edits sink start last (replace_line E alloc o pattern r fuel line start last sink)
  replace_line-Edits zero start last sink h enough v = absurd (omega arith)
  replace_line-Edits (suc fuel) start last sink h enough v =
      after_search fuel start last sink _ h refl
        (match_pattern-Placed E lawful o pattern pos line start h) v
        (λ start' last' s lt le v'. replace_line-Edits fuel start' last' s le (omega arith) v')
