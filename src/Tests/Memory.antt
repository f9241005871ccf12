-- ===== src/Tests/Memory.antt =====
-- Calls of parse_pattern, free_pattern and free_replace, and the texts of messages.
use rrep.Base.{ℕ, ◌≡◌, refl, true, false, not, ◌&&◌, some, [], ◌∷◌, ltb, bytes, arith}
use rrep.Options.{no_options}
use rrep.Heap.{Heap}
use rrep.Heap.Freed.{Owned, member, without}
use rrep.Messages.{unknown_escape, open_read}
use rrep.Messages.Texts.{Strings, error_text, phrase, names_file, adds_error, perror}
use rrep.Pattern.Parse.{parse_pattern}
use rrep.Heap.Held.{FreshHeap}
use rrep.Replacement.Lexing.{lex}
use rrep.Replacement.Memory.{allocate_replace}
use rrep.Replacement.Memory.Kept.{KeepsOwn, allocate_replace-KeepsOwn}
use rrep.Pattern.Parse.Leaks.{Settled, parse_pattern-Settled}
use rrep.Replacement.Release.{Fields, null_fields, pointers, free_replace, free_replace-pointers}
use rrep.Tests.{plenty, no_engine}

-- The pointers below 5 are in use.
abbrev pub some_heap : Heap
some_heap = record { live = λ q. ltb q 5; next = 5 }

some_heap-FreshHeap : FreshHeap some_heap
some_heap-FreshHeap q h = ground arith

-- The pattern does not compile, so both blocks are freed.
parse_pattern-Settled_example :
    Settled no_engine no_options
      (bytes "a(")
      true
      false
      some_heap
      (parse_pattern no_engine plenty 64 no_options (bytes "a(") true false some_heap)
parse_pattern-Settled_example =
    parse_pattern-Settled no_engine no_options (bytes "a(") true false some_heap plenty 64
      some_heap-FreshHeap

-- Blocks for the string, the arrays and three parts.
allocate_replace-KeepsOwn_example :
    KeepsOwn some_heap (allocate_replace plenty no_options (bytes "a&b\\1") some_heap)
unfolding lex
allocate_replace-KeepsOwn_example =
    allocate_replace-KeepsOwn plenty some_heap no_options (bytes "a&b\\1") some_heap-FreshHeap refl

abbrev two_parts : Fields
two_parts = record {
  string = some 0;
  sub = some 1;
  part = some (2, some 3 ∷ []);
  part_len = some 4;
}

two_parts-Owned : Owned some_heap (pointers two_parts)
two_parts-Owned = (refl, refl, (refl, refl, (refl, refl, (refl, refl, (refl, refl, tt)))))

free_replace-pointers_example :
    (free_replace two_parts some_heap ≡ some (null_fields, without (pointers two_parts) some_heap))
    × ((q : ℕ)
        → (without (pointers two_parts) some_heap).live q
          ≡ (ltb q 5 && not (member q (pointers two_parts))))
    × (free_replace null_fields (without (pointers two_parts) some_heap)
        ≡ some (null_fields, without (pointers two_parts) some_heap))
free_replace-pointers_example = free_replace-pointers two_parts some_heap two_parts-Owned

abbrev strings : Strings
strings = record {
  program_name = bytes "rrep";
  package_string = bytes "rrep 1.3";
  authors = bytes "A";
  package_bugreport = bytes "b";
  exit_failure = bytes "1";
  exit_success = bytes "0";
}

escape_text :
    error_text strings unknown_escape (bytes "\\q") (bytes "no error")
    ≡ bytes "rrep: \\q: unknown escape sequence in REPLACEMENT\n"
unfolding error_text phrase names_file adds_error perror
escape_text = refl

missing_text :
    error_text strings open_read (bytes "n") (bytes "no such file")
    ≡ bytes "rrep: n: could not open file for reading: no such file\n"
unfolding error_text phrase names_file adds_error perror
missing_text = refl
