-- ===== src/Replace/EditedFile.antt =====
-- replace_string writes each line of a file with its matches replaced.
use mathlib.Core.Path.{subst}
use rrep.Base.{
  ℕ, ◌+◌, ◌≡◌, ◌≤◌, ◌<◌, sym, ap, ◌∙◌, ◌⊎◌, Bool, true, false, Option, List, [], ◌∷◌, ◌++◌, arith,
  length, append-nil, append_assoc,
}
use rrep.Options.{Options}
use rrep.Messages.{read_file, realloc_buffer}
use rrep.Bufferio.{File, Reader}
use rrep.EachLine.{next, return, Ended, done, returned, failed, starved, fold_lines}
use rrep.EachLine.Refine.{Over}
use rrep.EachLine.AnyFile.{read_lines, whole_file-Over}
use rrep.Pattern.{Engine, Pattern, Span, regerror, match_pattern}
use rrep.Pattern.Regex.{IsLawful}
use rrep.Replacement.{Replace}
use rrep.Replace.{
  Sink, written, LineEnd, flushed, write_failed, regex_failed, out_of_rounds, write_replacement,
  replace_line, step_of, line_step, replace_string,
}
use rrep.Replace.Write.{InSize, Refused, Emits}
use rrep.Replace.Pieces.{Piece, target, Replaces}
use rrep.Replace.Edits.{Edits, replace_line-Edits}

-- What a match in a line is replaced by.
abbrev pub Texts : Type 0
Texts = List ℕ → ℕ → Span → List (Option Span) → List ℕ

-- The lines with their matches replaced.
abbrev pub targets : Texts → List (List ℕ) → List (List Piece) → List ℕ
targets text (l ∷ ls) (ps ∷ pss) = target (text l) ps ++ targets text ls pss
targets text ls pss = []

module _ (E : Engine) (o : Options) (pattern : Pattern E) where
  -- The pieces of each line, from its beginning on.
  abbrev pub ReplacesEach : List (List ℕ) → List (List Piece) → Type 0
  ReplacesEach [] [] = Unit
  ReplacesEach [] (ps ∷ pss) = ⊥
  ReplacesEach (l ∷ ls) [] = ⊥
  ReplacesEach (l ∷ ls) (ps ∷ pss) = Replaces E o pattern l 0 true ps × ReplacesEach ls pss

  module _ (alloc : ℕ → Bool) (text : Texts) where
    -- How replace_string ends for these lines: with all of them written, their matches replaced; at a
    -- refusal; at an error of regexec in a line; or because read_line has failed.
    abbrev pub FileEdits : Bool → Sink → List (List ℕ) → Ended Sink (Sink × LineEnd) → Type 0
    FileEdits bad sink ls (done s) =
        (pss : List (List Piece)) × ReplacesEach ls pss
        × (written s ≡ written sink ++ targets text ls pss)
        × InSize s
    FileEdits bad sink ls (returned (s, write_failed)) = Refused alloc
    FileEdits bad sink ls (returned (s, regex_failed e)) =
        (l : List ℕ) × (k : ℕ) × (match_pattern E o pattern l k ≡ regerror e)
    FileEdits bad sink ls (returned (s, flushed)) = ⊥
    FileEdits bad sink ls (returned (s, out_of_rounds)) = ⊥
    FileEdits bad sink ls (failed t e) =
        ((e ≡ read_file) × (bad ≡ true)) ⊎ ((e ≡ realloc_buffer) × Refused alloc)
    FileEdits bad sink ls starved = ⊥

    -- A line and the lines behind it.
    FileEdits-after :
        (bad : Bool) (sink s : Sink) (l : List ℕ) (ls : List (List ℕ)) (ps : List Piece)
        (out : Ended Sink (Sink × LineEnd))
        → Replaces E o pattern l 0 true ps
        → written s ≡ written sink ++ target (text l) ps
        → FileEdits bad s ls out
        → FileEdits bad sink (l ∷ ls) out
    FileEdits-after bad sink s l ls ps (done t) d e (pss, ds, w, v) = (
      ps ∷ pss,
      (d, ds),
      w
          ∙ ap (λ u. u ++ targets text ls pss) e
          ∙ append_assoc (written sink) (target (text l) ps) (targets text ls pss),
      v,
    )
    FileEdits-after bad sink s l ls ps (returned (t, write_failed)) d e h = h
    FileEdits-after bad sink s l ls ps (returned (t, regex_failed x)) d e h = h
    FileEdits-after bad sink s l ls ps (returned (t, flushed)) d e h = h
    FileEdits-after bad sink s l ls ps (returned (t, out_of_rounds)) d e h = h
    FileEdits-after bad sink s l ls ps (failed t x) d e h = h
    FileEdits-after bad sink s l ls ps starved d e h = h

module _ (E : Engine) (lawful : IsLawful E) (alloc : ℕ → Bool) (o : Options) (pattern : Pattern E)
    (r : Replace) (pos : 0 < length pattern.string) (text : Texts)
    (writes : (line : List ℕ) (start : ℕ) (m : Span) (subs : List (Option Span)) (sink : Sink)
      → InSize sink
      → Emits alloc sink
          (text line start m subs)
          (write_replacement alloc o sink line start m subs r)) where
  abbrev Out : Type 0
  Out = Ended Sink (Sink × LineEnd)

  one_step-FileEdits :
      (bad : Bool) (sink : Sink) (l : List ℕ) (ls : List (List ℕ)) (w : Sink × LineEnd)
      (again : Sink → Out)
      → Edits E lawful alloc o pattern r pos l (text l) (writes l) sink 0 true w
      → ((s : Sink) → InSize s → FileEdits E o pattern alloc text bad s ls (again s))
      → FileEdits E o pattern alloc text bad sink
          (l ∷ ls)
          (elim (step_of w) [ next s ↦ again s | return x ↦ returned x ])
  unfolding step_of
  one_step-FileEdits bad sink l ls (s, flushed) again (ps, d, e, v) k =
      FileEdits-after E o pattern alloc text bad sink s l ls ps (again s) d e (k s v)
  one_step-FileEdits bad sink l ls (s, write_failed) again h k = h
  one_step-FileEdits bad sink l ls (s, regex_failed e) again (n, h) k = (l, n, h)
  one_step-FileEdits bad sink l ls (s, out_of_rounds) again h k = absurd h

  fold_lines-FileEdits :
      (bad : Bool) (ls : List (List ℕ)) (sink : Sink)
      → InSize sink
      → FileEdits E o pattern alloc text bad sink ls
          (fold_lines (λ _. true) (line_step E alloc o pattern r) ls sink)
  unfolding fold_lines line_step
  fold_lines-FileEdits bad [] sink v = ([], tt, sym (append-nil (written sink)), v)
  fold_lines-FileEdits bad (l ∷ ls) sink v =
      one_step-FileEdits bad sink l ls
        (replace_line E alloc o pattern r (length l + 1) l 0 true sink)
        (fold_lines (λ _. true) (line_step E alloc o pattern r) ls)
        (replace_line-Edits E lawful alloc o pattern r pos l (text l) (writes l) (length l + 1) 0
          true sink (omega arith) (omega arith) v)
        (λ s w. fold_lines-FileEdits bad ls s w)

  Over-FileEdits :
      (ls : List (List ℕ)) (f₀ : File) (sink : Sink) (out : Out × Reader × File)
      → InSize sink
      → Over (λ _. true) (line_step E alloc o pattern r) o.binary alloc ls f₀ sink out
      → FileEdits E o pattern alloc text f₀.bad sink ls out.0
  Over-FileEdits ls f₀ sink (done s, reader, f) v (e, c, b, z) =
      subst (FileEdits E o pattern alloc text f₀.bad sink ls) (sym e)
        (fold_lines-FileEdits f₀.bad ls sink v)
  Over-FileEdits ls f₀ sink (returned x, reader, f) v (e, c, b, z) =
      subst (FileEdits E o pattern alloc text f₀.bad sink ls) (sym e)
        (fold_lines-FileEdits f₀.bad ls sink v)
  Over-FileEdits ls f₀ sink (starved, reader, f) v (e, c, b, z) =
      subst (FileEdits E o pattern alloc text f₀.bad sink ls) (sym e)
        (fold_lines-FileEdits f₀.bad ls sink v)
  Over-FileEdits ls f₀ sink (failed t x, reader, f) v (c, h) = h

  -- Where regexec keeps to its interface, for a PATTERN that is not empty, a REPLACEMENT that stands
  -- for a text at each match, a buffer of at least two bytes, a file at its start and an output inside
  -- its memory: replace_string ends with the lines of the file behind what the output held, in each of
  -- them the matches replaced that the searches from left to right find; or at an error of regexec, a
  -- device error or a refused realloc.
  pub replace_string-FileEdits :
      (reader : Reader) (f : File) (sink : Sink)
      → 2 ≤ reader.buffer_size
      → f.eof ≡ false
      → f.error ≡ false
      → InSize sink
      → FileEdits E o pattern alloc text f.bad sink
          (read_lines o.binary (reader.buffer 0) f.rest)
          (replace_string E alloc o pattern r reader f sink).0
  unfolding replace_string
  replace_string-FileEdits reader f sink big eof error v =
      Over-FileEdits (read_lines o.binary (reader.buffer 0) f.rest) f sink _ v (
        whole_file-Over (λ _. true) (line_step E alloc o pattern r) o.binary alloc reader f sink big
          eof error)
