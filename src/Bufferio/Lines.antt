-- ===== src/Bufferio/Lines.antt =====
-- The lines of a content, as read_line is meant to deliver them: a line ends with its delimiter,
-- only the last one may lack it.
use mathlib.Core.List.{flatten}
use rrep.Base.{
  ℕ, ◌≡◌, refl, Bool, true, false, List, [], ◌∷◌, ◌++◌, arith, if◌then◌else◌, All, Bool-cases, inl,
  inr, ◌⊎◌, append-nil, append_assoc,
}
use rrep.Bufferio.{delimits}

-- A character in front of the first line.
abbrev pub cons_line : ℕ → List (List ℕ) → List (List ℕ)
cons_line c [] = (c ∷ []) ∷ []
cons_line c (l ∷ ls) = (c ∷ l) ∷ ls

module _ (binary : Bool) where
  unfoldable pub lines : List ℕ → List (List ℕ)
  lines [] = []
  lines (c ∷ cs) =
      let rest = lines cs in if delimits binary c then (c ∷ []) ∷ rest else cons_line c rest

  abbrev pub Plain : List ℕ → Type 0
  Plain = All (λ c. delimits binary c ≡ false)

  -- What a line looks like: plain characters and one more, which is the delimiter if the line is
  -- not the last.
  abbrev pub IsLine : List ℕ → Type 0
  IsLine l = (w : List ℕ) × (c : ℕ) × (l ≡ w ++ (c ∷ [])) × Plain w

  -- Plain characters up to a delimiter are the first line.
  pub lines_delimited :
      (w : List ℕ) (c : ℕ) (r : List ℕ)
      → Plain w
      → delimits binary c ≡ true
      → lines (w ++ (c ∷ r)) ≡ (w ++ (c ∷ [])) ∷ lines r
  unfolding lines
  lines_delimited [] c r p d = rw d
  lines_delimited (x ∷ w) c r (px, p) d = rw (px, lines_delimited w c r p d)

  -- At the end of the content any character closes the last line.
  pub lines_last : (w : List ℕ) (c : ℕ) → Plain w → lines (w ++ (c ∷ [])) ≡ (w ++ (c ∷ [])) ∷ []
  unfolding lines
  lines_last [] c p = ground arith
  lines_last (x ∷ w) c (px, p) = rw (px, lines_last w c p)

  -- The two cases in one: what follows a line is split by itself.
  pub lines_first :
      (w : List ℕ) (c : ℕ) (r : List ℕ)
      → Plain w
      → (delimits binary c ≡ true) ⊎ (r ≡ [])
      → lines ((w ++ (c ∷ [])) ++ r) ≡ (w ++ (c ∷ [])) ∷ lines r
  unfolding lines
  lines_first w c r p (inl d) = rw (append_assoc w (c ∷ []) r) (lines_delimited w c r p d)
  lines_first w c r p (inr e) = rw (e, append-nil) (lines_last w c p)

  flatten-cons_line : (c : ℕ) (ls : List (List ℕ)) → flatten (cons_line c ls) ≡ c ∷ flatten ls
  unfolding flatten
  flatten-cons_line c [] = refl
  flatten-cons_line c (l ∷ ls) = refl

  -- The lines make up the content.
  pub flatten-lines : (xs : List ℕ) → flatten (lines xs) ≡ xs
  unfolding lines flatten
  flatten-lines [] = refl
  flatten-lines (c ∷ cs) = elim (Bool-cases (delimits binary c)) [
    | inl d ↦ rw (d, flatten-lines cs)
    | inr p ↦ rw (p, flatten-cons_line c (lines cs), flatten-lines cs)
  ]

  cons_line-IsLine :
      (c : ℕ) (ls : List (List ℕ))
      → delimits binary c ≡ false
      → All IsLine ls
      → All IsLine (cons_line c ls)
  cons_line-IsLine c [] p h = (([], c, refl, tt), tt)
  cons_line-IsLine c (l ∷ ls) p ((w, x, e, pw), h) = ((c ∷ w, x, rw e, (p, pw)), h)

  -- Each is a line.
  pub lines-IsLine : (xs : List ℕ) → All IsLine (lines xs)
  unfolding lines
  lines-IsLine [] = tt
  lines-IsLine (c ∷ cs) = elim (Bool-cases (delimits binary c)) [
    | inl d ↦ rw d (([], c, refl, tt), lines-IsLine cs)
    | inr p ↦ rw p (cons_line-IsLine c (lines cs) p (lines-IsLine cs))
  ]
