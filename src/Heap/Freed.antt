-- ===== src/Heap/Freed.antt =====
-- What a sequence of calls of free leaves.
use rrep.Base.{
  ℕ, ◌≡◌, refl, ◌∙◌, inl, inr, Bool, true, false, not, ◌&&◌, ◌||◌, Option, none, some, List, [],
  ◌∷◌, ◌++◌, ◌==◌, arith, Bool-cases,
}
use rrep.Heap.{Heap, set_live, free, ◌>>=◌}

abbrev pub member : ℕ → List ℕ → Bool
member p [] = false
member p (q ∷ qs) = p == q || member p qs

-- Pointers that are allocated and differ from one another.
abbrev pub Owned : Heap → List ℕ → Type 0
Owned h [] = Unit
Owned h (p ∷ ps) = (h.live p ≡ true) × (member p ps ≡ false) × Owned h ps

-- The frees of a list of pointers, one after another.
unfoldable pub free_all : List ℕ → Heap → Option Heap
free_all [] h = some h
free_all (p ∷ ps) h = free p h >>= free_all ps

-- The heap without the pointers.
abbrev pub without : List ℕ → Heap → Heap
without [] h = h
without (p ∷ ps) h = without ps (record h { live = set_live p false h.live })

-- Freeing another pointer takes nothing away.
Owned-set_live :
    (p : ℕ) (h : Heap) (ps : List ℕ)
    → member p ps ≡ false
    → Owned h ps
    → Owned (record h { live = set_live p false h.live }) ps
Owned-set_live p h [] m o = tt
Owned-set_live p h (q ∷ qs) m (l, d, o) = elim (Bool-cases (p == q)) [
  | inl e ↦ absurd (let z = (rw e at m) in cc)
  | inr e ↦ (ground arith, d, Owned-set_live p h qs (rw e at m) o)
]

-- Each pointer of a list that is owned is freed, once.
pub free_all_lem : (ps : List ℕ) (h : Heap) → Owned h ps → free_all ps h ≡ some (without ps h)
unfolding free_all free
free_all_lem [] h o = refl
free_all_lem (p ∷ ps) h (l, d, o) =
    rw l (free_all_lem ps (record h { live = set_live p false h.live }) (Owned-set_live p h ps d o))

pub live-without :
    (ps : List ℕ) (h : Heap) (q : ℕ) → (without ps h).live q ≡ (h.live q && not (member q ps))
live-without [] h q = ground arith
live-without (p ∷ ps) h q =
    live-without ps (record h { live = set_live p false h.live }) q ∙ ground arith

bind_steps :
    (m : Option Heap) (f g k : Heap → Option Heap)
    → ((h : Heap) → k h ≡ (f h >>= g))
    → (m >>= k) ≡ ((m >>= f) >>= g)
bind_steps none f g k e = refl
bind_steps (some h) f g k e = e h

pub free_all-append :
    (ps qs : List ℕ) (h : Heap) → free_all (ps ++ qs) h ≡ (free_all ps h >>= free_all qs)
unfolding free_all
free_all-append [] qs h = refl
free_all-append (p ∷ ps) qs h =
    bind_steps (free p h) (free_all ps) (free_all qs) (free_all (ps ++ qs)) (free_all-append ps qs)
