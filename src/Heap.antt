-- ===== src/Heap.antt =====
-- Allocated memory: malloc and free, as src/pattern.c uses them. A pointer is a number, NULL is `none`.
pub mod Freed
pub mod Held
use rrep.Base.{
  ℕ, ◌+◌, Bool, true, false, not, ◌&&◌, Option, none, some, List, [], ◌∷◌, ltb, ◌==◌, if◌then◌else◌,
}

-- Which pointers may be freed, and the next one that malloc gives.
pub record Heap : Type 0 where
  pub live : ℕ → Bool
  pub next : ℕ

abbrev pub set_live : ℕ → Bool → (ℕ → Bool) → ℕ → Bool
set_live p b live q = if q == p then b else live q

-- `alloc n` says whether malloc can give n bytes.
unfoldable pub malloc : (ℕ → Bool) → ℕ → Heap → Option (ℕ × Heap)
malloc alloc n h =
    if alloc n
    then some (h.next, record { live = set_live h.next true h.live; next = h.next + 1 })
    else none

-- `none` is a pointer that is not allocated or has been freed before.
unfoldable pub free : ℕ → Heap → Option Heap
free p h = if h.live p then some (record h { live = set_live p false h.live }) else none

-- if (p != NULL) free (p);
unfoldable pub free_field : Option ℕ → Heap → Option Heap
unfolding free
free_field none h = some h
free_field (some p) h = free p h

-- A step that may be wrong, and what follows it.
infixl 5 ◌>>=◌
abbrev pub ◌>>=◌ {ℓ κ} : {A : Type ℓ} {B : Type κ} → Option A → (A → Option B) → Option B
none >>= f = none
some a >>= f = f a

-- One step after another.
abbrev pub then_free : (Heap → Option Heap) → (Heap → Option Heap) → Heap → Option Heap
then_free f g h = f h >>= g
