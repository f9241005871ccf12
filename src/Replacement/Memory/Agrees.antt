-- ===== src/Replacement/Memory/Agrees.antt =====
-- The memory of parse_replace and its result belong to the same runs.
use rrep.Base.{
  ℕ, zero, suc, ◌+◌, ◌*◌, ◌≡◌, inl, inr, Bool, true, false, ◌&&◌, Option, none, some, List, [], ◌∷◌,
  ◌++◌, length, if◌then◌else◌, Bool-cases,
}
use rrep.Options.{Options}
use rrep.Messages.{ErrCode, alloc_replacement}
use rrep.Messages
use rrep.Bufferio.Memory.{Block}
use rrep.Heap.{Heap, malloc}
use rrep.Heap.Held.{grown}
use rrep.Replacement.{
  Replace, Parsed, parsed, rejected, overflow, enough, refused, exceeded, store_parts, fill_parts,
  parse_replace, Count, count, unknown, count_subs, part_lens,
}
use rrep.Replacement.Release.{Fields, free_replace}
use rrep.Replacement.Memory.{
  Allocated, given_up, give_up, with_parts, allocate_parts, allocate_arrays, allocate_replace,
}

-- Both succeed, or both fail. The memory model also ends at a write behind the array of parts and at
-- a free that C does not define.
abbrev pub Agrees : Allocated → Parsed → Type 0
Agrees none x = Unit
Agrees (some (true, p, h)) (parsed r) = Unit
Agrees (some (true, p, h)) (rejected e text) = ⊥
Agrees (some (true, p, h)) overflow = ⊥
Agrees (some (false, p, h)) (parsed r) = ⊥
Agrees (some (false, p, h)) (rejected e text) = Unit
Agrees (some (false, p, h)) overflow = ⊥

give_up-Agrees :
    (r : Fields) (h : Heap) (e : ErrCode) (text : List ℕ) → Agrees (give_up r h) (rejected e text)
unfolding give_up
give_up-Agrees r h e text = failed (free_replace r h)
  where
    failed : (x : Option (Fields × Heap)) → Agrees (given_up x) (rejected e text)
    failed none = tt
    failed (some (r', h')) = tt

module _ (alloc : ℕ → Bool) (garbage : Block) where
  allocate_parts-Agrees :
      (room : ℕ) (lens : List ℕ) (filled : List (Option ℕ)) (r : Fields) (p : ℕ) (h : Heap)
      (x : Replace)
      → Agrees
          (allocate_parts alloc room lens filled r p h)
          (elim (store_parts alloc garbage room lens) [
            | exceeded ↦ overflow
            | refused ↦ rejected alloc_replacement []
            | enough ↦ parsed x
          ])
  unfolding allocate_parts store_parts malloc
  allocate_parts-Agrees room [] filled r p h x = tt
  allocate_parts-Agrees zero (len ∷ lens) filled r p h x = tt
  allocate_parts-Agrees (suc room) (len ∷ lens) filled r p h x =
      elim (Bool-cases (alloc (len + 1))) [
        | inl a ↦
            rw (a, store_parts, allocate_parts)
              (allocate_parts-Agrees room lens (filled ++ (some h.next ∷ [])) r p (grown h) x)
        | inr a ↦
            rw (a, store_parts, allocate_parts)
              (give_up-Agrees (with_parts r p filled (suc room)) h alloc_replacement [])
      ]

  abbrev arrays_or : Bool → List ℕ → ℕ → Parsed
  arrays_or b string n =
      if b then fill_parts alloc garbage string n else rejected alloc_replacement []

  malloc_given : (n : ℕ) (h : Heap) → alloc n ≡ true → malloc alloc n h ≡ some (h.next, grown h)
  unfolding malloc
  malloc_given n h a = rw a

  malloc_refused : (n : ℕ) (h : Heap) → alloc n ≡ false → malloc alloc n h ≡ none
  unfolding malloc
  malloc_refused n h a = rw a

  allocate_arrays-Agrees :
      (string : List ℕ) (n : ℕ) (r : Fields) (h : Heap)
      → Agrees
          (allocate_arrays alloc string n r h)
          (arrays_or (alloc ((n + 1) * 8) && alloc ((n + 1) * 8) && alloc (n * 4)) string n)
  unfolding allocate_arrays
  allocate_arrays-Agrees string n r h = elim (Bool-cases (alloc ((n + 1) * 8))) [
    | inr a ↦
        rw (allocate_arrays, malloc_refused ((n + 1) * 8) h a, a)
          (give_up-Agrees r h alloc_replacement [])
    | inl a ↦ elim (Bool-cases (alloc (n * 4))) [
      | inr b ↦
          rw
            (
              allocate_arrays,
              malloc_given ((n + 1) * 8) h a,
              malloc_given ((n + 1) * 8) (grown h) a,
              malloc_refused (n * 4) (grown (grown h)) b,
              a,
              b,
            )
            (give_up-Agrees _ (grown (grown h)) alloc_replacement [])
      | inl b ↦
          rw
            (
              allocate_arrays,
              malloc_given ((n + 1) * 8) h a,
              malloc_given ((n + 1) * 8) (grown h) a,
              malloc_given (n * 4) (grown (grown h)) b,
              a,
              b,
            )
            (allocate_parts-Agrees (n + 1) (part_lens string 0) []
              (record r { part_len = some (h.next + 1); sub = some (h.next + 1 + 1) }) h.next
              (grown (grown (grown h))) _)
    ]
  ]

  counted-Agrees :
      (string : List ℕ) (r : Fields) (h : Heap) (x : Count) (f : ℕ → List ℕ)
      → Agrees
          (elim x [ unknown c ↦ give_up r h | count n ↦ allocate_arrays alloc string n r h ])
          (elim x [
            | unknown c ↦ rejected Messages.unknown_escape (f c)
            | count n ↦
                arrays_or (alloc ((n + 1) * 8) && alloc ((n + 1) * 8) && alloc (n * 4)) string n
          ])
  counted-Agrees string r h (unknown c) f = give_up-Agrees r h _ _
  counted-Agrees string r h (count n) f = allocate_arrays-Agrees string n r h

  -- Whatever malloc answers and whatever the heap is: the model of the memory of parse_replace
  -- succeeds where parse_replace does, and fails where it fails.
  pub allocate_replace-Agrees :
      (o : Options) (string : List ℕ) (h : Heap)
      → Agrees (allocate_replace alloc o string h) (parse_replace alloc garbage o string)
  unfolding allocate_replace parse_replace malloc
  allocate_replace-Agrees o string h = elim (Bool-cases (alloc (length string + 1))) [
    | inr a ↦ rw (a, allocate_replace) tt
    | inl a ↦ elim (Bool-cases o.fixed) [
      | inl f ↦ rw (a, f, allocate_replace) tt
      | inr f ↦
          rw (a, f, allocate_replace) (counted-Agrees string _ (grown h) (count_subs string 0) _)
    ]
  ]
