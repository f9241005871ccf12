-- ===== src/Pattern/Parse.antt =====
-- parse_pattern and free_pattern of src/pattern.c.
pub mod Leaks
pub mod Nonempty
use rrep.Base.{
  ℕ, ◌+◌, Bool, true, false, Option, none, some, inl, inr, List, [], ◌∷◌, ltb, if◌then◌else◌,
  length,
}
use rrep.Options.{Options}
use rrep.Messages.{ErrCode, alloc_pattern, Report, coded, regex}
use rrep.Messages as Messages
use rrep.Heap.{Heap, malloc, free, free_field, ◌>>=◌}
use rrep.Pattern.{Engine, Pattern}

-- The pointers of a pattern_t.
pub record Fields : Type 0 where
  pub string : Option ℕ
  pub compiled : Option ℕ

abbrev pub null_fields : Fields
null_fields = record { string = none; compiled = none }

-- free_pattern. `none` is a free of a pointer that is not allocated.
unfoldable pub free_pattern : Fields → Heap → Option (Fields × Heap)
unfolding free_field
free_pattern p h =
    free_field p.string h >>= λ h1. free_field p.compiled h1 >>= λ h2. some (null_fields, h2)

module _ (E : Engine) where
  -- How parse_pattern ends: with the pattern, or with a report and FAILURE.
  pub data ParsedPattern : Type 0 where
    parsed : Pattern E → ParsedPattern
    rejected : Report → ParsedPattern

  -- The result, the pointers of the struct, and the heap.
  abbrev pub Outcome : Type 0
  Outcome = Option (ParsedPattern × Fields × Heap)

  abbrev pub freed : Report → Option (Fields × Heap) → Outcome
  freed e none = none
  freed e (some (p, h)) = some (rejected e, p, h)

  -- The end of parse_pattern: regcomp into the allocated memory.
  unfoldable pub compile : List ℕ → Bool → Bool → Fields → Heap → Outcome
  unfolding free_pattern
  compile string extended icase p h = elim (E.regcomp string extended icase) [
    | inl e ↦ freed (regex e) (free_pattern p h)
    | inr re ↦ some (parsed (record { string = string; compiled = some re }), p, h)
  ]

  -- `alloc n` says whether malloc can give n bytes, `regex_size` is the size of a regex_t; the flags
  -- are REG_EXTENDED and REG_ICASE.
  module _ (alloc : ℕ → Bool) (regex_size : ℕ) where
    -- parse_pattern on a struct whose pointers are NULL.
    unfoldable pub parse_pattern : Options → List ℕ → Bool → Bool → Heap → Outcome
    unfolding malloc compile free_pattern
    parse_pattern o string extended icase h =
        if ltb (length string) 1
        then some (rejected (coded Messages.pattern []), null_fields, h)
        else elim (malloc alloc (length string + 1) h) [
          | none ↦ some (rejected (coded alloc_pattern []), null_fields, h)
          | some (p, h1) ↦
              let fields : Fields = record { string = some p; compiled = none } in
              if o.fixed
              then some (parsed (record { string = string; compiled = none }), fields, h1)
              else elim (malloc alloc regex_size h1) [
                | none ↦ freed (coded alloc_pattern []) (free_pattern fields h1)
                | some (q, h2) ↦
                    compile string extended icase (record fields { compiled = some q }) h2
              ]
        ]
