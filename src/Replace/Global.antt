-- ===== src/Replace/Global.antt =====
-- The plain search and replace that replace_string implements for fixed strings, and how it splits at
-- an occurrence.
use native.Mathlib.Nat.{zero-add}
use rrep.Base.{
  ℕ, zero, suc, ◌+◌, ◌-◌, ◌≡◌, ◌≤◌, ◌<◌, refl, sym, ap, ◌∙◌, inl, inr, true, false, List, [], ◌∷◌,
  ◌++◌, arith, Bool-cases, length, take, drop, ◌==◌, length-drop, length-take,
}
use rrep.Pattern.{is_prefix, cstr}
use rrep.Pattern.Strings.{Occurs, is_prefix→take, take→is_prefix}

module _ (p text : List ℕ) where
  -- The reference: from left to right, each occurrence of p that does not overlap the one before it
  -- becomes the text. The number says how much of an occurrence is still to be passed over.
  unfoldable pub replace_all : ℕ → List ℕ → List ℕ
  replace_all skip [] = []
  replace_all (suc skip) (c ∷ s) = replace_all skip s
  replace_all zero (c ∷ s) = elim (is_prefix p (c ∷ s)) [
    | true ↦ text ++ replace_all (length p - 1) s
    | false ↦ c ∷ replace_all zero s
  ]

  replace_all_skip : (k : ℕ) (s : List ℕ) → replace_all k s ≡ replace_all zero (drop k s)
  unfolding replace_all
  replace_all_skip zero s = refl
  replace_all_skip (suc k) [] = refl
  replace_all_skip (suc k) (c ∷ s) = replace_all_skip k s

  pub replace_all_here :
      (c : ℕ) (s : List ℕ)
      → 0 < length p
      → is_prefix p (c ∷ s) ≡ true
      → replace_all zero (c ∷ s) ≡ text ++ replace_all zero (drop (length p) (c ∷ s))
  unfolding replace_all
  replace_all_here c s pos h =
      let e : length p ≡ suc (length p - 1) = omega arith in
      rw (h, replace_all)
        (ap (λ t. text ++ t)
          (replace_all_skip (length p - 1) s ∙ ap (λ k. replace_all zero (drop k (c ∷ s))) (sym e)))

  pub replace_all_there :
      (c : ℕ) (s : List ℕ)
      → is_prefix p (c ∷ s) ≡ false
      → replace_all zero (c ∷ s) ≡ c ∷ replace_all zero s
  unfolding replace_all
  replace_all_there c s h = rw (h, replace_all)

  not_here : (s : List ℕ) → ¬ Occurs p s 0 → is_prefix p s ≡ false
  not_here s h = elim (Bool-cases (is_prefix p s)) [
    | inl e ↦ absurd (h (is_prefix→take p s e))
    | inr e ↦ e
  ]

  not_in_nil : (i : ℕ) → 0 < length p → ¬ Occurs p [] i
  not_in_nil i pos o =
      omega
        (arith, ap length o, length-take {A = ℕ} (length p) (drop i []), length-drop {A = ℕ} i [])

  pub replace_all_nil : (k : ℕ) → replace_all k [] ≡ []
  unfolding replace_all
  replace_all_nil k = refl

  -- Where nothing occurs nothing changes.
  pub replace_all_none : (s : List ℕ) → ((j : ℕ) → ¬ Occurs p s j) → replace_all zero s ≡ s
  replace_all_none [] h = replace_all_nil zero
  replace_all_none (c ∷ s) h =
      replace_all_there c s (not_here (c ∷ s) (h 0))
      ∙ ap (λ t. c ∷ t) (replace_all_none s (λ j. h (suc j)))

  -- The first occurrence splits the work.
  pub replace_all_first :
      (s : List ℕ) (i : ℕ)
      → 0 < length p
      → Occurs p s i
      → ((j : ℕ) → j < i → ¬ Occurs p s j)
      → replace_all zero s ≡ take i s ++ (text ++ replace_all zero (drop (i + length p) s))
  replace_all_first [] i pos o first = absurd (not_in_nil i pos o)
  replace_all_first (c ∷ s) zero pos o first =
      rw (zero-add (length p)) (replace_all_here c s pos (take→is_prefix p (c ∷ s) o))
  replace_all_first (c ∷ s) (suc i) pos o first =
      let e : suc i + length p ≡ suc (i + length p) = omega arith in
      rw e (
        replace_all_there c s (not_here (c ∷ s) (first 0 (omega arith)))
        ∙ ap (λ t. c ∷ t) (replace_all_first s i pos o (λ j lt. first (suc j) (omega arith))))

-- The C string and what stands behind its NUL make up the bytes.
pub cstr-append-drop : (s : List ℕ) → cstr s ++ drop (length (cstr s)) s ≡ s
unfolding cstr
cstr-append-drop [] = refl
cstr-append-drop (c ∷ s) = elim (Bool-cases (c == 0)) [
  | inl z ↦ rw z
  | inr z ↦ rw z (ap (λ t. c ∷ t) (cstr-append-drop s))
]

pub take-cstr : (k : ℕ) (s : List ℕ) → k ≤ length (cstr s) → take k s ≡ take k (cstr s)
unfolding cstr
take-cstr zero s h = refl
take-cstr (suc k) [] h = refl
take-cstr (suc k) (c ∷ s) h = elim (Bool-cases (c == 0)) [
  | inl z ↦ absurd (omega (arith, (rw z at h)))
  | inr z ↦ rw z (ap (λ t. c ∷ t) (take-cstr k s (omega (arith, (rw z at h)))))
]
