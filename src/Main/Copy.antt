-- ===== src/Main/Copy.antt =====
-- The whole program from standard input to standard output.
use rrep.Base.{
  ℕ, zero, ◌+◌, ◌*◌, ◌≡◌, ◌<◌, refl, Bool, true, false, Option, none, List, [], ◌∷◌, arith, inl,
  inr, ge→ltb, length,
}
use rrep.Options.{Options, no_options}
use rrep.Bufferio.{File, Reader, opened, init_buffer_size}
use rrep.Bufferio.Memory.{Block}
use rrep.Heap.{Heap, malloc}
use rrep.Pattern.{Engine}
use rrep.Pattern.Fixed.{AnyPlace}
use rrep.Pattern.Parse.{parse_pattern}
use rrep.Replacement.{parse_replace}
use rrep.EachLine.{Ended, done, returned, failed, starved}
use rrep.Replace.{Sink, stream, LineEnd, flushed, write_failed, regex_failed, out_of_rounds}
use rrep.Replace.Global.{replace_all}
use rrep.Replace.Text.{Text, OneLine}
use rrep.Replace.WholeFile.{EmitsFile, replace_string_fixed}
use rrep.World.{success}
use rrep.Names.{Excludes}
use rrep.Walk.{Walk}
use rrep.CommandLine.{fixed_strings, parse_option, parse_options, parse_arguments, initial, Args}
use rrep.Main.{
  Input, Outcome, exits, from_stdin, after_stdin, process, after_replacement, after_pattern,
  new_buffer, with_strings, with_files, with_backups, with_suffix, after_options, option_messages,
  main,
}

-- The input of `rrep -F PATTERN REPLACEMENT`.
abbrev pub filter : List ℕ → List ℕ → List ℕ → Input → Input
filter p r text input = record input {
  events = (fixed_strings, none) ∷ [];
  arguments = p ∷ r ∷ [];
  environment = none;
  stdin = text;
  stdin_bad = false;
}

-- Success, with the text on standard output.
abbrev pub Copies : List ℕ → Outcome → Type 0
Copies text x = (x.exit ≡ exits success) × (x.stdout ≡ text)

module _ (E : Engine) (X : Excludes) (alloc : ℕ → Bool) (regex_size : ℕ) (garbage : Block)
    (heap : Heap) (input : Input) (grants : (n : ℕ) → alloc n ≡ true) where
  after_stdin-Copies :
      (text : List ℕ) (o : Options) (s : Walk) (x : Ended Sink (Sink × LineEnd) × Reader × File)
      → EmitsFile alloc false (stream []) text x.0
      → Copies text (after_stdin E X alloc regex_size garbage heap input o s x)
  unfolding after_stdin
  after_stdin-Copies text o s (done sink, reader, f) (h, v) = (refl, h)
  after_stdin-Copies text o s (failed sink e, reader, f) (inl (h, b)) = absurd cc
  after_stdin-Copies text o s (failed sink e, reader, f) (inr (h, (n, g))) =
      absurd (let q = grants n in cc)
  after_stdin-Copies text o s (returned (sink, write_failed), reader, f) (n, g) =
      absurd (let q = grants n in cc)
  after_stdin-Copies text o s (returned (sink, flushed), reader, f) h = absurd h
  after_stdin-Copies text o s (returned (sink, regex_failed e), reader, f) h = absurd h
  after_stdin-Copies text o s (returned (sink, out_of_rounds), reader, f) h = absurd h
  after_stdin-Copies text o s (starved, reader, f) h = absurd h

  -- What is not standard input is not looked at.
  process-Copies :
      (a : Args X) (no_backups : Bool) (p r text : List ℕ) (re : Option E.Regex) (s : Walk)
      → a.options.fixed ≡ true
      → AnyPlace a.options
      → 0 < length p
      → OneLine p
      → 0 < length text
      → Text text
      → Copies (replace_all p r zero text) (
          process E X alloc regex_size garbage heap
            (filter p r text input)
            a
            no_backups
            []
            (record { string = p; compiled = re })
            (record { string = r; part = []; part_len = []; sub = []; nsub = 0 })
            (new_buffer E X alloc regex_size garbage heap input a s))
  unfolding process from_stdin
  process-Copies a no_backups p r text re s fixed any pos one some_bytes t =
      after_stdin-Copies (replace_all p r zero text) a.options _ _ (
        replace_string_fixed E alloc a.options (record { string = p; compiled = re })
          (record { string = r; part = []; part_len = []; sub = []; nsub = 0 }) fixed any pos _
          (opened text false) (stream []) (omega arith)
          (record { some_bytes = some_bytes; not_eof = refl; no_error = refl }) tt one t)

  -- What -F alone sets.
  abbrev only_fixed : Args X
  only_fixed = record (initial X none) { options = record no_options { fixed = true } }

  with_files-Copies :
      (p r text : List ℕ) (s : Walk)
      → 0 < length p
      → OneLine p
      → 0 < length text
      → Text text
      → Copies
          (replace_all p r zero text)
          (with_files E X alloc regex_size garbage heap (filter p r text input) only_fixed true s)
  unfolding with_files with_strings parse_arguments parse_pattern malloc after_pattern
      after_replacement parse_replace
  with_files-Copies p r text s pos one some_bytes t =
      rw
        (
          grants (length (p ∷ r ∷ []) * 8),
          grants init_buffer_size,
          ge→ltb (length p) 1 pos,
          grants (length p + 1),
          grants (length r + 1),
        )
        (process-Copies only_fixed true p r text none s refl
          (record { no_word = refl; no_line = refl }) pos one some_bytes t)

  -- Where malloc and realloc grant every size: rrep -F PATTERN REPLACEMENT with a PATTERN that is
  -- not empty and holds no newline, on a standard input that is not empty, holds no NUL and is read
  -- without a device error, ends with SUCCESS and writes the input with each occurrence of PATTERN,
  -- from left to right, replaced.
  pub main_fixed :
      (p r text : List ℕ) (s : Walk)
      → 0 < length p
      → OneLine p
      → 0 < length text
      → Text text
      → Copies
          (replace_all p r zero text)
          (main E X alloc regex_size garbage heap (filter p r text input) s)
  unfolding main after_options with_suffix with_backups parse_options parse_option
  main_fixed p r text s pos one some_bytes t =
      with_files-Copies p r text
        (option_messages E X alloc regex_size garbage heap (filter p r text input) only_fixed s) pos
        one some_bytes t
