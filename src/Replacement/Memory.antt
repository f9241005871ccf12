-- ===== src/Replacement/Memory.antt =====
-- The memory of parse_replace of src/pattern.c: what it allocates for the struct, and what it frees
-- where it fails.
pub mod Kept
pub mod Agrees
use rrep.Base.{
  ℕ, zero, suc, ◌+◌, ◌*◌, ◌≡◌, ◌≤◌, ◌<◌, refl, sym, ap, ◌∙◌, inl, inr, Bool, true, false, ◌&&◌,
  ◌||◌, not, Option, none, some, List, [], ◌∷◌, ◌++◌, arith, length, if_both, if◌then◌else◌,
  Bool-cases, replicate, append-nil, append_assoc,
}
use rrep.Options.{Options}
use rrep.Heap.{Heap, malloc}
use rrep.Heap.Freed.{Owned, member, without}
use rrep.Heap.Held.{FreshHeap, Holds, grown, Holds-nothing, Holds-malloc, Holds-freed}
use rrep.Replacement.{Count, count, unknown, count_subs, part_lens}
use rrep.Replacement.Lexing.{lex}
use rrep.Replacement.Swipes.{hidden, parts_counted}
use rrep.Replacement.Release.{
  Fields, null_fields, free_replace, pointers, part_pointers, free_replace-pointers,
}

-- How parse_replace ends: whether it succeeds, the pointers of the struct, and the heap. `none` is a
-- free of a pointer that is not allocated, or a write behind the array `part`.
abbrev pub Allocated : Type 0
Allocated = Option (Bool × Fields × Heap)

-- A failure behind free_replace.
abbrev pub given_up : Option (Fields × Heap) → Allocated
given_up none = none
given_up (some (r, h)) = some (false, r, h)

unfoldable pub give_up : Fields → Heap → Allocated
give_up r h = given_up (free_replace r h)

-- The array `part` with the pointers that are there and NULL behind them.
abbrev pub with_parts : Fields → ℕ → List (Option ℕ) → ℕ → Fields
with_parts r p filled room = record r { part = some (p, filled ++ replicate room none) }

module _ (alloc : ℕ → Bool) where
  -- The second swipe: a block for each length, stored in the array `p` with room for so many more.
  unfoldable pub allocate_parts : ℕ → List ℕ → List (Option ℕ) → Fields → ℕ → Heap → Allocated
  unfolding give_up malloc
  allocate_parts room [] filled r p h = some (true, with_parts r p filled room, h)
  allocate_parts zero (len ∷ lens) filled r p h = none
  allocate_parts (suc room) (len ∷ lens) filled r p h = elim (malloc alloc (len + 1) h) [
    | none ↦ give_up (with_parts r p filled (suc room)) h
    | some (q, h') ↦ allocate_parts room lens (filled ++ (some q ∷ [])) r p h'
  ]

  -- The arrays, and the second swipe.
  unfoldable pub allocate_arrays : List ℕ → ℕ → Fields → Heap → Allocated
  unfolding allocate_parts
  allocate_arrays string n r h = elim (malloc alloc ((n + 1) * 8) h) [
    | none ↦ give_up r h
    | some (p, h1) ↦ elim (malloc alloc ((n + 1) * 8) h1) [
      | none ↦ give_up (with_parts r p [] (n + 1)) h1
      | some (q, h2) ↦ elim (malloc alloc (n * 4) h2) [
        | none ↦ give_up (record (with_parts r p [] (n + 1)) { part_len = some q }) h2
        | some (s, h3) ↦
            allocate_parts (n + 1) (part_lens string 0) []
              (record r { part_len = some q; sub = some s }) p h3
      ]
    ]
  ]

  -- parse_replace on a struct whose pointers are NULL.
  unfoldable pub allocate_replace : Options → List ℕ → Heap → Allocated
  unfolding allocate_arrays count_subs
  allocate_replace o string h = elim (malloc alloc (length string + 1) h) [
    | none ↦ some (false, null_fields, h)
    | some (p, h1) ↦
        let r : Fields = record null_fields { string = some p } in
        if o.fixed then some (true, r, h1) else elim (count_subs string 0) [
          | unknown c ↦ give_up r h1
          | count n ↦ allocate_arrays string n r h1
        ]
  ]
