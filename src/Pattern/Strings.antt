-- ===== src/Pattern/Strings.antt =====
-- Occurrences in C strings, and what strstr finds.
use mathlib.Core.Option
use mathlib.Core.Path.{ap₂}
use rrep.Base.{
  ℕ, zero, suc, ◌+◌, ◌≤◌, ◌<◌, ◌≡◌, refl, sym, ap, ◌∙◌, inl, inr, Bool, true, false, ◌&&◌, none,
  some, List, [], ◌∷◌, arith, ◌==◌, length, take, drop, drop-nil, Bool-cases, Option-cases, ==→eq,
  eq→==, length-take,
}
use rrep.Pattern.{cstr, is_prefix, strstr}

-- The string p stands in s at index i.
abbrev pub Occurs : List ℕ → List ℕ → ℕ → Type 0
Occurs p s i = take (length p) (drop i s) ≡ p

-- A test on the head and one on the tail.
pub &&-true : (a b : Bool) → (a && b) ≡ true → (a ≡ true) × (b ≡ true)
&&-true a b h = ground arith

pub is_prefix→take : (p s : List ℕ) → is_prefix p s ≡ true → take (length p) s ≡ p
unfolding is_prefix
is_prefix→take [] s h = refl
is_prefix→take (x ∷ p) [] h = cc
is_prefix→take (x ∷ p) (c ∷ s) h =
    let (e, q) = &&-true (x == c) (is_prefix p s) h in
    ap₂ ◌∷◌ (sym (==→eq x c e)) (is_prefix→take p s q)

pub take→is_prefix : (p s : List ℕ) → take (length p) s ≡ p → is_prefix p s ≡ true
unfolding is_prefix
take→is_prefix [] s h = refl
take→is_prefix (x ∷ p) [] h = cc
take→is_prefix (x ∷ p) (c ∷ s) h =
    let e : x ≡ c = cc in
    let q : take (length p) s ≡ p = cc in rw (eq→== x c e, take→is_prefix p s q)

-- The first occurrence: none stands before it, and it lies within the string.
pub record First (p s : List ℕ) (i : ℕ) : Type 0 where
  pub occurs : Occurs p s i
  pub before : (j : ℕ) → j < i → ¬ Occurs p s j
  pub within : i + length p ≤ length s

take_within : (p s : List ℕ) → take (length p) s ≡ p → length p ≤ length s
take_within p s h = omega (arith, ap length h, length-take (length p) s)

strstr_here : (s p : List ℕ) → is_prefix p s ≡ true → strstr s p ≡ some 0
unfolding strstr
strstr_here [] p h = rw h
strstr_here (c ∷ s) p h = rw h

strstr_later :
    (c : ℕ) (s p : List ℕ)
    → is_prefix p (c ∷ s) ≡ false
    → strstr (c ∷ s) p ≡ Option.map suc (strstr s p)
unfolding strstr
strstr_later c s p h = rw h

First-here : (s p : List ℕ) → is_prefix p s ≡ true → First p s 0
First-here s p h = record {
  occurs = is_prefix→take p s h;
  before = λ j lt. absurd (omega arith);
  within = omega (arith, take_within p s (is_prefix→take p s h));
}

not_prefix : (s p : List ℕ) → is_prefix p s ≡ false → ¬ Occurs p s 0
not_prefix s p h o = let e = take→is_prefix p s o in cc

First-later :
    (c : ℕ) (s p : List ℕ) (i : ℕ)
    → is_prefix p (c ∷ s) ≡ false
    → First p s i
    → First p (c ∷ s) (suc i)
First-later c s p i h f = record {
  occurs = f.occurs;
  before = before;
  within = omega (arith, f.within);
}
  where
    before : (j : ℕ) → j < suc i → ¬ Occurs p (c ∷ s) j
    before zero lt = not_prefix (c ∷ s) p h
    before (suc j) lt = f.before j (omega arith)

strstr_nil : (p : List ℕ) → is_prefix p [] ≡ false → strstr [] p ≡ none
unfolding strstr
strstr_nil p h = rw h

First-some : (s p : List ℕ) (i j : ℕ) → First p s j → some j ≡ some i → First p s i
First-some s p i j f e = let q : j ≡ i = cc in rw q at f

-- strstr finds the first occurrence.
pub strstr-First : (s p : List ℕ) (i : ℕ) → strstr s p ≡ some i → First p s i
strstr-First [] p i h = elim (Bool-cases (is_prefix p [])) [
  | inl e ↦ First-some [] p i 0 (First-here [] p e) (sym (strstr_here [] p e) ∙ h)
  | inr e ↦ absurd (cc (strstr_nil p e))
]
strstr-First (c ∷ s) p i h = elim (Bool-cases (is_prefix p (c ∷ s))) [
  | inl e ↦ First-some (c ∷ s) p i 0 (First-here (c ∷ s) p e) (sym (strstr_here (c ∷ s) p e) ∙ h)
  | inr e ↦ elim (Option-cases (strstr s p)) [
    | inl n ↦ absurd (cc (strstr_later c s p e, ap (Option.map suc) n))
    | inr (j, q) ↦
        First-some (c ∷ s) p i (suc j) (First-later c s p j e (strstr-First s p j q))
          (sym (strstr_later c s p e ∙ ap (Option.map suc) q) ∙ h)
  ]
]

Occurs-nil : (p : List ℕ) (j : ℕ) → Occurs p [] j → Occurs p [] 0
Occurs-nil p j o = rw (drop-nil j) at o

-- It finds one if there is one.
pub strstr-none : (s p : List ℕ) → strstr s p ≡ none → (j : ℕ) → ¬ Occurs p s j
strstr-none [] p h j o = cc (strstr_here [] p (take→is_prefix p [] (Occurs-nil p j o)))
strstr-none (c ∷ s) p h zero o = cc (strstr_here (c ∷ s) p (take→is_prefix p (c ∷ s) o))
strstr-none (c ∷ s) p h (suc j) o = strstr-none s p tail_none j o
  where
    tail_none : strstr s p ≡ none
    tail_none = elim (Bool-cases (is_prefix p (c ∷ s))) [
      | inl e ↦ cc (strstr_here (c ∷ s) p e)
      | inr e ↦ elim (Option-cases (strstr s p)) [
        | inl n ↦ n
        | inr (k, q) ↦ cc (strstr_later c s p e, ap (Option.map suc) q)
      ]
    ]

pub cstr-drop : (k : ℕ) (s : List ℕ) → k ≤ length (cstr s) → cstr (drop k s) ≡ drop k (cstr s)
unfolding cstr
cstr-drop zero s h = refl
cstr-drop (suc k) [] h = refl
cstr-drop (suc k) (c ∷ s) h = elim (Bool-cases (c == 0)) [
  | inl z ↦ absurd (omega (arith, (rw z at h)))
  | inr z ↦ rw z (cstr-drop k s (omega (arith, (rw z at h))))
]

pub length-cstr : (s : List ℕ) → length (cstr s) ≤ length s
unfolding cstr
length-cstr [] = omega arith
length-cstr (c ∷ s) = ground (arith, length-cstr s)
