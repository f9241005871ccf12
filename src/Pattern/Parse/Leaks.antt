-- ===== src/Pattern/Parse/Leaks.antt =====
-- parse_pattern keeps what it allocates only if it succeeds, and frees nothing twice.
use rrep.Base.{
  ℕ, ◌+◌, ◌≡◌, ◌<◌, refl, ◌⊎◌, inl, inr, Bool, true, false, ◌||◌, Option, none, some, List, [],
  arith, ltb, ltb→ge, ◌==◌, eq→==, ne→==, Bool-cases, length, if_both,
}
use rrep.Options.{Options}
use rrep.Messages.{alloc_pattern, Report, coded, regex}
use rrep.Heap.{Heap, set_live, malloc, free, free_field}
use rrep.Heap.Held.{FreshHeap}
use rrep.Pattern.{Engine}
use rrep.Pattern.Parse.{
  Fields, null_fields, free_pattern, parsed, rejected, Outcome, freed, compile, parse_pattern,
}

either {ℓ κ} :
    {A : Type ℓ} {B : Type κ} (x : A ⊎ B) → ((a : A) × (x ≡ inl a)) ⊎ ((b : B) × (x ≡ inr b))
either (inl a) = inl (a, refl)
either (inr b) = inr (b, refl)

-- The pointer is in use.
abbrev pub points_to : Option ℕ → ℕ → Bool
points_to none q = false
points_to (some p) q = q == p

module _ (E : Engine) (o : Options) (string : List ℕ) (extended icase : Bool) (h : Heap) where
  -- A failure leaves the struct empty and the heap as it was. A success keeps the pattern, which is
  -- not empty, compiled unless OPT_FIXED is set, and the memory that the struct points to.
  abbrev pub Settled : Outcome E → Type 0
  Settled none = ⊥
  Settled (some (rejected e, p, h')) = (p ≡ null_fields) × ((q : ℕ) → h'.live q ≡ h.live q)
  Settled (some (parsed pattern, p, h')) =
      (pattern.string ≡ string)
      × (0 < length string)
      × ((o.fixed ≡ true) × (pattern.compiled ≡ none)
          ⊎ (re : E.Regex) × (E.regcomp string extended icase ≡ inr re)
            × (pattern.compiled ≡ some re))
      × ((q : ℕ) → h'.live q ≡ (h.live q || (points_to p.string q || points_to p.compiled q)))

  -- Two blocks are allocated.
  abbrev two_blocks : Heap
  two_blocks = record {
    live = set_live (h.next + 1) true (set_live h.next true h.live);
    next = h.next + 1 + 1;
  }

  abbrev two_fields : Fields
  two_fields = record { string = some h.next; compiled = some (h.next + 1) }

  freed_both : (e : Report) → FreshHeap h → Settled (freed E e (free_pattern two_fields two_blocks))
  unfolding free_pattern free_field free
  freed_both e v =
      rw
        (
          ne→== h.next (h.next + 1) (omega arith),
          eq→== h.next h.next refl,
          ne→== (h.next + 1) h.next (omega arith),
          eq→== (h.next + 1) (h.next + 1) refl,
        )
        (refl, λ q. ground (arith, v q))

  compile-Settled :
      FreshHeap h
      → 0 < length string
      → Settled (compile E string extended icase two_fields two_blocks)
  unfolding compile
  compile-Settled v some_bytes = elim (either (E.regcomp string extended icase)) [
    | inl (e, h) ↦ rw (h, compile) (freed_both (regex e) v)
    | inr (re, h) ↦ rw (h, compile) (refl, some_bytes, inr (re, h, refl), λ q. ground arith)
  ]

  one_block-Settled :
      FreshHeap h
      → Settled (
          freed E (coded alloc_pattern []) (
            free_pattern
              (record { string = some h.next; compiled = none })
              (record { live = set_live h.next true h.live; next = h.next + 1 })))
  unfolding free_pattern free_field free
  one_block-Settled v = rw (eq→== h.next h.next refl) (refl, λ q. ground (arith, v q))

  -- On a heap whose next pointer is unused, whatever malloc and regcomp answer: parse_pattern frees no
  -- pointer that is not allocated; where it fails it leaves a struct of NULL pointers and no memory
  -- behind, and where it succeeds the pattern is the string, which is not empty, compiled unless
  -- OPT_FIXED is set, and only the pointers of the struct are newly allocated.
  pub parse_pattern-Settled :
      (alloc : ℕ → Bool) (regex_size : ℕ)
      → FreshHeap h
      → Settled (parse_pattern E alloc regex_size o string extended icase h)
  unfolding parse_pattern malloc
  parse_pattern-Settled alloc regex_size v =
      if_both Settled (ltb (length string) 1) (λ _. (refl, λ q. refl))
        (λ some_bytes. elim (Bool-cases (alloc (length string + 1))) [
          | inr a ↦ rw a (refl, λ q. refl)
          | inl a ↦ rw a (
              if_both Settled o.fixed
                (λ f. (refl, ltb→ge (length string) 1 some_bytes, inl (f, refl), λ q. ground arith))
                (λ f. elim (Bool-cases (alloc regex_size)) [
                  | inr b ↦ rw b (one_block-Settled v)
                  | inl b ↦ rw b (compile-Settled v (ltb→ge (length string) 1 some_bytes))
                ]))
        ])
