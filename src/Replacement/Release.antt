-- ===== src/Replacement/Release.antt =====
-- free_replace of src/pattern.c.
use mathlib.Core.Path.{fun_ext, ap₂}
use rrep.Base.{ℕ, ◌≡◌, refl, ◌∙◌, sym, ap, not, ◌&&◌, Option, none, some, List, [], ◌∷◌, ◌++◌}
use rrep.Heap.{Heap, free, free_field, ◌>>=◌, then_free}
use rrep.Heap.Freed.{member, Owned, free_all, without, free_all_lem, live-without, free_all-append}

-- The pointers of a replace_t: the array `part` stands with what it points to.
pub record Fields : Type 0 where
  pub string : Option ℕ
  pub sub : Option ℕ
  pub part : Option (ℕ × List (Option ℕ))
  pub part_len : Option ℕ

abbrev pub null_fields : Fields
null_fields = record { string = none; sub = none; part = none; part_len = none }

-- The loop over part.
unfoldable pub free_parts : List (Option ℕ) → Heap → Option Heap
free_parts [] h = some h
free_parts (p ∷ ps) h = then_free (free_field p) (free_parts ps) h

unfoldable pub free_part : Option (ℕ × List (Option ℕ)) → Heap → Option Heap
unfolding free_parts
free_part none h = some h
free_part (some (p, parts)) h = then_free (free_parts parts) (free p) h

-- free_replace. `none` is a free of a pointer that is not allocated.
unfoldable pub free_replace : Fields → Heap → Option (Fields × Heap)
unfolding free_part
free_replace r h =
    then_free (free_field r.string)
      (then_free (free_field r.sub) (then_free (free_part r.part) (free_field r.part_len))) h
    >>= λ h'. some (null_fields, h')

abbrev pub field_pointer : Option ℕ → List ℕ
field_pointer none = []
field_pointer (some p) = p ∷ []

abbrev pub part_pointers : List (Option ℕ) → List ℕ
part_pointers [] = []
part_pointers (p ∷ ps) = field_pointer p ++ part_pointers ps

abbrev pub array_pointers : Option (ℕ × List (Option ℕ)) → List ℕ
array_pointers none = []
array_pointers (some (p, parts)) = part_pointers parts ++ (p ∷ [])

-- The pointers of the struct that are not NULL.
abbrev pub pointers : Fields → List ℕ
pointers r =
    field_pointer r.string
    ++ (field_pointer r.sub ++ (array_pointers r.part ++ field_pointer r.part_len))

bind_some : (m : Option Heap) → (m >>= some) ≡ m
bind_some none = refl
bind_some (some h) = refl

free-free_all : (p : ℕ) → free p ≡ free_all (p ∷ [])
unfolding free_all
free-free_all p = fun_ext (λ h. sym (bind_some (free p h)))

free_field-free_all : (p : Option ℕ) → free_field p ≡ free_all (field_pointer p)
unfolding free_all free_field
free_field-free_all none = refl
free_field-free_all (some p) = free-free_all p

joined : (ps qs : List ℕ) → then_free (free_all ps) (free_all qs) ≡ free_all (ps ++ qs)
joined ps qs = fun_ext (λ h. sym (free_all-append ps qs h))

free_parts-free_all : (ps : List (Option ℕ)) → free_parts ps ≡ free_all (part_pointers ps)
unfolding free_parts free_all
free_parts-free_all [] = refl
free_parts-free_all (p ∷ ps) = fun_ext λ h.
    ap (λ f. f h)
      (ap₂ then_free (free_field-free_all p) (free_parts-free_all ps)
        ∙ joined (field_pointer p) (part_pointers ps))

free_part-free_all : (p : Option (ℕ × List (Option ℕ))) → free_part p ≡ free_all (array_pointers p)
unfolding free_part free_all
free_part-free_all none = refl
free_part-free_all (some (p, ps)) = fun_ext λ h.
    ap (λ f. f h)
      (ap₂ then_free (free_parts-free_all ps) (free-free_all p)
        ∙ joined (part_pointers ps) (p ∷ []))

steps-free_all :
    (r : Fields)
    → then_free
        (free_field r.string)
        (then_free (free_field r.sub) (then_free (free_part r.part) (free_field r.part_len)))
      ≡ free_all (pointers r)
steps-free_all r =
    ap₂ then_free (free_field-free_all r.string) (
      ap₂ then_free (free_field-free_all r.sub) (
        ap₂ then_free (free_part-free_all r.part) (free_field-free_all r.part_len)
        ∙ joined (array_pointers r.part) (field_pointer r.part_len))
      ∙ joined (field_pointer r.sub) (array_pointers r.part ++ field_pointer r.part_len))
    ∙ joined (field_pointer r.string)
        (field_pointer r.sub ++ (array_pointers r.part ++ field_pointer r.part_len))

-- On a struct whose pointers are allocated and differ from one another, free_replace frees each of
-- them and nothing else and sets the struct to NULL; a second call then changes nothing.
pub free_replace-pointers :
    (r : Fields) (h : Heap)
    → Owned h (pointers r)
    → (free_replace r h ≡ some (null_fields, without (pointers r) h))
      × ((q : ℕ) → (without (pointers r) h).live q ≡ (h.live q && not (member q (pointers r))))
      × (free_replace null_fields (without (pointers r) h)
          ≡ some (null_fields, without (pointers r) h))
unfolding free_replace free_part free_field
free_replace-pointers r h o = (
  ap (λ f. f h >>= λ h'. some (null_fields, h')) (steps-free_all r)
      ∙ ap (λ m. m >>= λ h'. some (null_fields, h')) (free_all_lem (pointers r) h o),
  live-without (pointers r) h,
  refl,
)
