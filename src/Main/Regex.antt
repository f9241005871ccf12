-- ===== src/Main/Regex.antt =====
-- The whole program with a regular expression, from standard input to standard output.
use mathlib.Core.Path.{subst}
use rrep.Base.{
  ℕ, ◌+◌, ◌*◌, ◌≡◌, ◌≢◌, ◌<◌, ◌≤◌, refl, sym, ◌⊎◌, inl, inr, Bool, true, false, Option, none, some,
  List, [], ◌∷◌, arith, ge→ltb, length,
}
use rrep.Options.{no_options}
use rrep.Bufferio.{File, Reader, opened, init_buffer_size}
use rrep.Bufferio.Memory.{Block}
use rrep.Bufferio.Lines.{lines}
use rrep.EachLine.{Ended, done, returned, failed, starved}
use rrep.EachLine.AnyFile.{read_lines_some}
use rrep.Heap.{Heap, malloc}
use rrep.Pattern.{Engine, Pattern, Span, regerror, match_pattern}
use rrep.Pattern.Regex.{IsLawful}
use rrep.Pattern.Parse.{parse_pattern, compile}
use rrep.Replacement.{Replace, parse_replace, count, count_subs}
use rrep.Replacement.Lexing.{lex}
use rrep.Replacement.Fit.{NoEscape}
use rrep.Replace.{
  Sink, stream, LineEnd, flushed, write_failed, regex_failed, out_of_rounds, write_replacement,
  replace_string,
}
use rrep.Replace.Write.{InSize, Emits}
use rrep.Replace.Pieces.{Piece}
use rrep.Replace.Expand.{substituted, parsed-Emits}
use rrep.Replace.EditedFile.{Texts, targets, ReplacesEach, FileEdits, replace_string-FileEdits}
use rrep.World.{success, failure}
use rrep.Names.{Excludes}
use rrep.Walk.{Walk}
use rrep.CommandLine.{parse_options, parse_arguments, initial}
use rrep.Main.{
  Input, Outcome, exits, from_stdin, after_stdin, process, after_replacement, after_pattern,
  new_buffer, with_strings, with_files, with_backups, with_suffix, after_options, option_messages,
  main,
}

-- The input of `rrep PATTERN REPLACEMENT`.
abbrev pub substitution : List ℕ → List ℕ → List ℕ → Input → Input
substitution p r text input = record input {
  events = [];
  arguments = p ∷ r ∷ [];
  environment = none;
  stdin = text;
  stdin_bad = false;
}

module _ (E : Engine) (pattern : Pattern E) (text : Texts) (ls : List (List ℕ)) where
  -- Success, with the lines on standard output, in each of them the matches replaced; or failure,
  -- where regexec has failed in a line.
  abbrev pub Substitutes : Outcome → Type 0
  Substitutes x =
      (x.exit ≡ exits success)
        × ((pss : List (List Piece)) × ReplacesEach E no_options pattern ls pss
            × (x.stdout ≡ targets text ls pss))
      ⊎ (x.exit ≡ exits failure)
        × ((l : List ℕ) × (k e : ℕ) × (match_pattern E no_options pattern l k ≡ regerror e))

module _ (E : Engine) (lawful : IsLawful E) (X : Excludes) (alloc : ℕ → Bool) (regex_size : ℕ)
    (garbage : Block) (heap : Heap) (input : Input) (grants : (n : ℕ) → alloc n ≡ true) where
  after_stdin-Substitutes :
      (pattern : Pattern E) (text : Texts) (ls : List (List ℕ)) (s : Walk)
      (x : Ended Sink (Sink × LineEnd) × Reader × File)
      → FileEdits E no_options pattern alloc text false (stream []) ls x.0
      → Substitutes E pattern text ls
          (after_stdin E X alloc regex_size garbage heap input no_options s x)
  unfolding after_stdin
  after_stdin-Substitutes pattern text ls s (done sink, reader, f) (pss, d, w, v) =
      inl (refl, (pss, d, w))
  after_stdin-Substitutes pattern text ls s (failed sink e, reader, f) (inl (h, b)) = absurd cc
  after_stdin-Substitutes pattern text ls s (failed sink e, reader, f) (inr (h, (n, g))) =
      absurd (let q = grants n in cc)
  after_stdin-Substitutes pattern text ls s (returned (sink, write_failed), reader, f) (n, g) =
      absurd (let q = grants n in cc)
  after_stdin-Substitutes pattern text ls s (returned (sink, flushed), reader, f) h = absurd h
  after_stdin-Substitutes pattern text ls s (returned (sink, regex_failed e), reader, f) (l, k, h) =
      inr (refl, (l, k, e, h))
  after_stdin-Substitutes pattern text ls s (returned (sink, out_of_rounds), reader, f) h = absurd h
  after_stdin-Substitutes pattern text ls s (starved, reader, f) h = absurd h

  process-Substitutes :
      (p r text : List ℕ) (pattern : Pattern E) (stored : Replace) (texts : Texts) (s : Walk)
      → 0 < length pattern.string
      → text ≢ []
      → ((line : List ℕ) (start : ℕ) (m : Span) (subs : List (Option Span)) (sink : Sink)
          → InSize sink
          → Emits alloc sink
              (texts line start m subs)
              (write_replacement alloc no_options sink line start m subs stored))
      → 2 ≤ s.world.reader.buffer_size
      → Substitutes E pattern texts (lines false text) (
          process E X alloc regex_size garbage heap
            (substitution p r text input)
            (initial X none)
            true
            []
            pattern
            stored
            s)
  unfolding process from_stdin
  process-Substitutes p r text pattern stored texts s pos some_bytes writes big =
      after_stdin-Substitutes pattern texts (lines false text) s run (
        subst (λ ls. FileEdits E no_options pattern alloc texts false (stream []) ls run.0)
          (sym (read_lines_some false (s.world.reader.buffer 0) text some_bytes))
          (replace_string-FileEdits E lawful alloc no_options pattern stored pos texts writes
            s.world.reader (opened text false) (stream []) big refl refl tt))
    where
      run : Ended Sink (Sink × LineEnd) × Reader × File
      run =
          replace_string E alloc no_options pattern stored s.world.reader (opened text false)
            (stream [])

  abbrev expression : List ℕ → E.Regex → Pattern E
  expression p re = record { string = p; compiled = some re }

  after_replacement-Substitutes :
      (p r text : List ℕ) (re : E.Regex) (n : ℕ) (s : Walk)
      → 0 < length p
      → text ≢ []
      → count_subs r 0 ≡ count n
      → NoEscape (lex r)
      → 2 ≤ s.world.reader.buffer_size
      → Substitutes E (expression p re) (substituted alloc garbage r) (lines false text) (
          after_replacement E X alloc regex_size garbage heap
            (substitution p r text input)
            (initial X none)
            true
            []
            (expression p re)
            s
            (parse_replace alloc garbage no_options r))
  unfolding after_replacement
  after_replacement-Substitutes p r text re n s pos some_bytes h plain big =
      let (stored, parses, writes) =
        parsed-Emits alloc garbage no_options r n refl h plain grants in
      rw (parses, after_replacement)
        (process-Substitutes p r text (expression p re) stored (substituted alloc garbage r) s pos
          some_bytes writes big)

  with_files-Substitutes :
      (p r text : List ℕ) (re : E.Regex) (n : ℕ) (s : Walk)
      → 0 < length p
      → text ≢ []
      → E.regcomp p false false ≡ inr re
      → count_subs r 0 ≡ count n
      → NoEscape (lex r)
      → Substitutes E (expression p re) (substituted alloc garbage r) (lines false text) (
          with_files E X alloc regex_size garbage heap
            (substitution p r text input)
            (initial X none)
            true
            s)
  unfolding with_files with_strings parse_arguments parse_pattern compile malloc after_pattern
  with_files-Substitutes p r text re n s pos some_bytes compiles h plain =
      rw
        (
          grants (length (p ∷ r ∷ []) * 8),
          grants init_buffer_size,
          ge→ltb (length p) 1 pos,
          grants (length p + 1),
          grants regex_size,
          compiles,
          compile,
        )
        (after_replacement-Substitutes p r text re n
          (new_buffer E X alloc regex_size garbage heap (substitution p r text input)
            (initial X none) s)
          pos some_bytes h plain (omega arith))

  -- Where malloc and realloc grant every size and regexec keeps to its interface: rrep PATTERN
  -- REPLACEMENT with a PATTERN that is not empty and that regcomp accepts and a REPLACEMENT whose
  -- only escapes are references, on a standard input that is not empty and is read without a device
  -- error, ends with SUCCESS and writes the lines of the input, in each of them the matches
  -- replaced that the searches from left to right find, each by REPLACEMENT with its references
  -- replaced by what they stand for; or it ends with FAILURE, and regexec fails on some line.
  pub main_regex :
      (p r text : List ℕ) (re : E.Regex) (n : ℕ) (s : Walk)
      → 0 < length p
      → text ≢ []
      → E.regcomp p false false ≡ inr re
      → count_subs r 0 ≡ count n
      → NoEscape (lex r)
      → Substitutes E
          (record { string = p; compiled = some re })
          (substituted alloc garbage r)
          (lines false text)
          (main E X alloc regex_size garbage heap (substitution p r text input) s)
  unfolding main after_options with_suffix with_backups parse_options
  main_regex p r text re n s pos some_bytes compiles h plain =
      with_files-Substitutes p r text re n
        (option_messages E X alloc regex_size garbage heap (substitution p r text input)
          (initial X none) s)
        pos some_bytes compiles h plain
