-- ===== src/Pattern/Parse/Nonempty.antt =====
-- An accepted PATTERN is not empty, whatever the heap is.
use rrep.Base.{
  ℕ, ◌+◌, ◌<◌, ◌⊎◌, Bool, List, length, ltb, ltb→ge, if_both, option_both, Option, none, some, inl,
  inr,
}
use rrep.Options.{Options}
use rrep.Messages.{Report, regex}
use rrep.Heap.{Heap, malloc}
use rrep.Pattern.{Engine}
use rrep.Pattern.Parse.{
  Fields, parsed, rejected, Outcome, freed, free_pattern, compile, parse_pattern,
}

module _ (E : Engine) where
  -- A pattern that parse_pattern returns.
  abbrev pub SomePattern : Outcome E → Type 0
  SomePattern none = Unit
  SomePattern (some (parsed p, fields, h)) = 0 < length p.string
  SomePattern (some (rejected e, fields, h)) = Unit

  freed-SomePattern : (e : Report) (x : Option (Fields × Heap)) → SomePattern (freed E e x)
  freed-SomePattern e none = tt
  freed-SomePattern e (some (p, h)) = tt

  compile-SomePattern :
      (string : List ℕ) (extended icase : Bool) (p : Fields) (h : Heap)
      → 0 < length string
      → SomePattern (compile E string extended icase p h)
  unfolding compile
  compile-SomePattern string extended icase p h pos = compiled (E.regcomp string extended icase)
    where
      compiled :
          (x : ℕ ⊎ E.Regex)
          → SomePattern (elim x [
            | inl e ↦ freed E (regex e) (free_pattern p h)
            | inr re ↦ some (parsed (record { string = string; compiled = some re }), p, h)
          ])
      compiled (inl e) = freed-SomePattern (regex e) (free_pattern p h)
      compiled (inr re) = pos

  pub parse_pattern_some :
      (alloc : ℕ → Bool) (regex_size : ℕ) (o : Options) (string : List ℕ) (extended icase : Bool)
      (h : Heap)
      → SomePattern (parse_pattern E alloc regex_size o string extended icase h)
  unfolding parse_pattern
  parse_pattern_some alloc regex_size o string extended icase h =
      if_both SomePattern (ltb (length string) 1) (λ _. tt)
        (λ e. option_both SomePattern (malloc alloc (length string + 1) h) tt (λ (p, h1) _.
          if_both SomePattern o.fixed (λ _. ltb→ge (length string) 1 e)
            (λ _.
              option_both SomePattern (malloc alloc regex_size h1) (freed-SomePattern _ _)
                (λ (q, h2) _.
                  compile-SomePattern string extended icase
                    (record { string = some p; compiled = some q }) h2
                    (ltb→ge (length string) 1 e)))))
