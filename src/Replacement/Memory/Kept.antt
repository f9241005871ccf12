-- ===== src/Replacement/Memory/Kept.antt =====
-- parse_replace keeps what it allocates only if it succeeds, and frees nothing twice.
use mathlib.Core.Path.{subst}
use rrep.Base.{
  ℕ, zero, suc, ◌+◌, ◌*◌, ◌≡◌, ◌≤◌, refl, sym, ap, inl, inr, Bool, true, false, Option, none, some,
  List, [], ◌∷◌, ◌++◌, arith, length, if_both, Bool-cases, replicate, append-nil, append_assoc,
}
use rrep.Options.{Options}
use rrep.Heap.{Heap, malloc}
use rrep.Heap.Held.{FreshHeap, Holds, grown, Holds-nothing, Holds-malloc, Holds-freed}
use rrep.Replacement.{Count, count, unknown, count_subs, part_lens}
use rrep.Replacement.Lexing.{lex}
use rrep.Replacement.Swipes.{hidden, parts_counted}
use rrep.Replacement.Release.{
  Fields, null_fields, pointers, field_pointer, part_pointers, free_replace-pointers,
}
use rrep.Replacement.Memory.{
  Allocated, give_up, with_parts, allocate_parts, allocate_arrays, allocate_replace,
}

-- A success keeps the pointers of the struct, which differ from one another, and nothing else; a
-- failure leaves a struct of NULL pointers and the heap as it was.
abbrev pub KeepsOwn : Heap → Allocated → Type 0
KeepsOwn h none = ⊥
KeepsOwn h (some (true, r, h')) = Holds h (pointers r) h'
KeepsOwn h (some (false, r, h')) = (r ≡ null_fields) × ((q : ℕ) → h'.live q ≡ h.live q)

give_up-KeepsOwn : (h h' : Heap) (r : Fields) → Holds h (pointers r) h' → KeepsOwn h (give_up r h')
unfolding give_up
give_up-KeepsOwn h h' r v =
    rw ((free_replace-pointers r h' v.owned).0) (refl, Holds-freed h h' (pointers r) v)

nulls : (k : ℕ) → part_pointers (replicate k none) ≡ []
nulls zero = refl
nulls (suc k) = nulls k

part_pointers-append :
    (ps bs : List (Option ℕ)) → part_pointers (ps ++ bs) ≡ part_pointers ps ++ part_pointers bs
part_pointers-append [] bs = refl
part_pointers-append (p ∷ ps) bs =
    rw (part_pointers-append ps bs)
      (sym (append_assoc (field_pointer p) (part_pointers ps) (part_pointers bs)))

-- The struct in the second swipe.
abbrev filled_fields : ℕ → ℕ → ℕ → Fields
filled_fields a s q = record { string = some a; sub = some s; part = none; part_len = some q }

filled_pointers :
    (a s q p room : ℕ) (filled : List (Option ℕ))
    → pointers (with_parts (filled_fields a s q) p filled room)
      ≡ a ∷ s ∷ (part_pointers filled ++ (p ∷ q ∷ []))
filled_pointers a s q p room filled =
    rw
      (
        part_pointers-append filled (replicate room none),
        nulls room,
        append-nil (part_pointers filled),
      )
      (ap (λ t. a ∷ s ∷ t) (append_assoc (part_pointers filled) (p ∷ []) (q ∷ [])))

module _ (alloc : ℕ → Bool) (h : Heap) where
  -- The two answers of malloc.
  malloc_both :
      (n : ℕ) (h' : Heap) (x : Allocated) (f : ℕ × Heap → Allocated)
      → KeepsOwn h x
      → KeepsOwn h (f (h'.next, grown h'))
      → KeepsOwn h (elim (malloc alloc n h') [ none ↦ x | some y ↦ f y ])
  unfolding malloc
  malloc_both n h' x f k l = elim (Bool-cases (alloc n)) [ inl a ↦ rw a l | inr a ↦ rw a k ]

  allocate_parts-KeepsOwn :
      (room : ℕ) (lens : List ℕ) (filled : List (Option ℕ)) (a s q p : ℕ) (h' : Heap)
      → length lens ≤ room
      → Holds h (a ∷ s ∷ (part_pointers filled ++ (p ∷ q ∷ []))) h'
      → KeepsOwn h (allocate_parts alloc room lens filled (filled_fields a s q) p h')
  unfolding allocate_parts
  allocate_parts-KeepsOwn room [] filled a s q p h' le v =
      subst (λ ps. Holds h ps h') (sym (filled_pointers a s q p room filled)) v
  allocate_parts-KeepsOwn zero (len ∷ lens) filled a s q p h' le v = absurd (omega arith)
  allocate_parts-KeepsOwn (suc room) (len ∷ lens) filled a s q p h' le v =
      malloc_both (len + 1) h' _ _
        (give_up-KeepsOwn h h' (with_parts (filled_fields a s q) p filled (suc room))
          (subst (λ ps. Holds h ps h') (sym (filled_pointers a s q p (suc room) filled)) v))
        (allocate_parts-KeepsOwn room lens (filled ++ (some h'.next ∷ [])) a s q p (grown h')
          (omega arith)
          (subst (λ ps. Holds h (a ∷ s ∷ ps) (grown h')) (sym stored)
            (Holds-malloc h h' (a ∷ s ∷ part_pointers filled) (p ∷ q ∷ []) v)))
    where
      stored :
          part_pointers (filled ++ (some h'.next ∷ [])) ++ (p ∷ q ∷ [])
          ≡ part_pointers filled ++ (h'.next ∷ p ∷ q ∷ [])
      stored =
          rw (part_pointers-append filled (some h'.next ∷ []))
            (append_assoc (part_pointers filled) (h'.next ∷ []) (p ∷ q ∷ []))

  -- The struct with the string, and with the array of parts.
  abbrev string_field : ℕ → Fields
  string_field a = record null_fields { string = some a }

  array_pointers_lem :
      (a p k : ℕ) (r : Fields)
      → r.string ≡ some a
      → r.sub ≡ none
      → pointers (with_parts r p [] k) ≡ a ∷ p ∷ field_pointer r.part_len
  array_pointers_lem a p k r e z = rw (e, z, nulls k)

  allocate_arrays-KeepsOwn :
      (string : List ℕ) (n a : ℕ) (h1 : Heap)
      → length (part_lens string 0) ≤ n + 1
      → Holds h (a ∷ []) h1
      → KeepsOwn h (allocate_arrays alloc string n (string_field a) h1)
  unfolding allocate_arrays
  allocate_arrays-KeepsOwn string n a h1 le v =
      malloc_both ((n + 1) * 8) h1 _ _ (give_up-KeepsOwn h h1 (string_field a) v) (
        malloc_both ((n + 1) * 8) h2 _ _
          (give_up-KeepsOwn h h2 (with_parts (string_field a) h1.next [] (n + 1)) (
            subst (λ ps. Holds h ps h2)
              (sym (array_pointers_lem a h1.next (n + 1) (string_field a) refl refl)) v2))
          (malloc_both (n * 4) h3 _ _
            (give_up-KeepsOwn h h3
              (record (with_parts (string_field a) h1.next [] (n + 1)) { part_len = some h2.next })
              (subst (λ ps. Holds h ps h3)
                (sym (
                  array_pointers_lem a h1.next (n + 1)
                    (record (string_field a) { part_len = some h2.next }) refl refl))
                v3))
            (allocate_parts-KeepsOwn (n + 1) (part_lens string 0) [] a h3.next h2.next h1.next
              (grown h3) le (Holds-malloc h h3 (a ∷ []) (h1.next ∷ h2.next ∷ []) v3))))
    where
      h2 : Heap
      h2 = grown h1

      h3 : Heap
      h3 = grown h2

      v2 : Holds h (a ∷ h1.next ∷ []) h2
      v2 = Holds-malloc h h1 (a ∷ []) [] v

      v3 : Holds h (a ∷ h1.next ∷ h2.next ∷ []) h3
      v3 = Holds-malloc h h2 (a ∷ h1.next ∷ []) [] v2

  counted-KeepsOwn :
      (string : List ℕ) (a : ℕ) (h1 : Heap) (x : Count)
      → count_subs string 0 ≡ x
      → hidden (lex string) ≡ 0
      → Holds h (a ∷ []) h1
      → KeepsOwn h (elim x [
        | unknown c ↦ give_up (string_field a) h1
        | count n ↦ allocate_arrays alloc string n (string_field a) h1
      ])
  counted-KeepsOwn string a h1 (unknown c) e z v = give_up-KeepsOwn h h1 (string_field a) v
  counted-KeepsOwn string a h1 (count n) e z v =
      allocate_arrays-KeepsOwn string n a h1 (omega (arith, parts_counted (lex string) 0 0 n e)) v

  -- On a heap whose next pointers are unused, for a REPLACEMENT in which no &, and no backslash
  -- before a digit 1 to 9, stands behind a backslash, and whatever malloc answers: parse_replace
  -- frees no pointer that is not allocated and writes inside the array of parts; where it succeeds,
  -- the pointers of the struct are what is newly allocated, and differ from one another; where it
  -- fails, the struct holds NULL pointers and no memory is left behind.
  pub allocate_replace-KeepsOwn :
      (o : Options) (string : List ℕ)
      → FreshHeap h
      → hidden (lex string) ≡ 0
      → KeepsOwn h (allocate_replace alloc o string h)
  unfolding allocate_replace
  allocate_replace-KeepsOwn o string f z =
      malloc_both (length string + 1) h _ _ (refl, λ q. refl)
        (if_both (KeepsOwn h) o.fixed (λ _. v)
          (λ _. counted-KeepsOwn string h.next (grown h) (count_subs string 0) refl z v))
    where
      v : Holds h (h.next ∷ []) (grown h)
      v = Holds-malloc h h [] [] (Holds-nothing h f)
