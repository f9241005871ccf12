-- ===== src/Heap/Held.antt =====
-- The memory that a piece of the program has allocated and holds.
use rrep.Base.{
  ℕ, ◌+◌, ◌≡◌, ◌≤◌, refl, ap, ◌∙◌, inl, inr, true, false, ◌||◌, List, [], ◌∷◌, ◌++◌, ◌==◌, arith,
  Bool-cases, eq→==, ==→eq,
}
use rrep.Heap.{Heap, set_live}
use rrep.Heap.Freed.{member, Owned, without, live-without}

-- malloc has never given the next pointer, nor one behind it.
abbrev pub FreshHeap : Heap → Type 0
FreshHeap h = (q : ℕ) → h.next ≤ q → h.live q ≡ false

-- The heap behind a successful malloc.
abbrev pub grown : Heap → Heap
grown h = record { live = set_live h.next true h.live; next = h.next + 1 }

-- Since the heap `h` these pointers have been allocated, each once, and nothing else has changed.
pub record Holds (h : Heap) (ps : List ℕ) (h' : Heap) : Type 0 where
  pub owned : Owned h' ps
  pub live : (q : ℕ) → h'.live q ≡ (h.live q || member q ps)
  pub new : (q : ℕ) → h.live q ≡ true → member q ps ≡ false
  pub fresh : FreshHeap h'

pub Holds-nothing : (h : Heap) → FreshHeap h → Holds h [] h
Holds-nothing h f = record { owned = tt; live = λ q. ground arith; new = λ q e. refl; fresh = f }

member-insert :
    (q p : ℕ) (front bs : List ℕ)
    → member q (front ++ (p ∷ bs)) ≡ (q == p || member q (front ++ bs))
member-insert q p [] bs = refl
member-insert q p (a ∷ front) bs = rw (member-insert q p front bs) (ground arith)

-- The next pointer is not among those that are live.
not_next : (h : Heap) (p : ℕ) → h.live h.next ≡ false → h.live p ≡ true → (p == h.next) ≡ false
not_next h p f l = elim (Bool-cases (p == h.next)) [
  | inr e ↦ e
  | inl e ↦ absurd (let z : h.live h.next ≡ true = rw (← ==→eq p h.next e) l in cc)
]

Owned-grown :
    (h : Heap) (ps : List ℕ)
    → h.live h.next ≡ false
    → Owned h ps
    → (member h.next ps ≡ false) × Owned (grown h) ps
Owned-grown h [] f o = (refl, tt)
Owned-grown h (p ∷ ps) f (l, d, o) =
    let (m, o') = Owned-grown h ps f o in
    let ne = not_next h p f l in (ground (arith, ne, m), (ground (arith, ne, l), d, o'))

Owned-insert :
    (h : Heap) (front bs : List ℕ)
    → h.live h.next ≡ false
    → Owned h (front ++ bs)
    → Owned (grown h) (front ++ (h.next ∷ bs))
Owned-insert h [] bs f o =
    let (m, o') = Owned-grown h bs f o in (rw (eq→== h.next h.next refl) refl, m, o')
Owned-insert h (a ∷ front) bs f (l, d, o) =
    let ne = not_next h a f l in
    (
      ground (arith, ne, l),
      rw (member-insert a h.next front bs) (ground (arith, ne, d)),
      Owned-insert h front bs f o,
    )

-- What malloc gives is held too, wherever it stands among the pointers.
pub Holds-malloc :
    (h h' : Heap) (front bs : List ℕ)
    → Holds h (front ++ bs) h'
    → Holds h (front ++ (h'.next ∷ bs)) (grown h')
Holds-malloc h h' front bs v = record {
  owned = Owned-insert h' front bs (v.fresh h'.next (omega arith)) v.owned;
  live = λ q. rw (member-insert q h'.next front bs) (ground (arith, v.live q));
  new = λ q e.
      let l : h'.live q ≡ true = v.live q ∙ ap (λ b. b || member q (front ++ bs)) e in
      let ne = not_next h' q (v.fresh h'.next (omega arith)) l in
      rw (member-insert q h'.next front bs) (ground (arith, ne, v.new q e));
  fresh = λ q le. ground (arith, v.fresh q);
}

-- Freeing what is held leaves the heap as it was.
pub Holds-freed :
    (h h' : Heap) (ps : List ℕ) → Holds h ps h' → (q : ℕ) → (without ps h').live q ≡ h.live q
Holds-freed h h' ps v q = live-without ps h' q ∙ ground (arith, v.live q, v.new q)
