-- ===== src/Pattern/Fixed.antt =====
-- match_pattern for a fixed string: where it matches, that it finds what is there, and that its loop
-- ends.
use rrep.Base.{
  ℕ, zero, suc, ◌+◌, ◌-◌, ◌≤◌, ◌<◌, ◌≡◌, refl, ap, inl, inr, true, false, Option, none, some, List,
  arith, length, drop, drop-drop, Bool-cases, replicate, Option-cases, length-drop,
}
use rrep.Options.{Options}
use rrep.Pattern.{
  strstr, string_at, check_whole, find_fixed, match_fixed, Match, matched, no_match, regerror,
  starved, Span,
}
use rrep.Pattern.Strings.{Occurs, strstr-First, strstr-none, cstr-drop, length-cstr}

-- Neither --word-regexp nor --line-regexp was given.
pub record AnyPlace (o : Options) : Type 0 where
  pub no_word : o.whole_word ≡ false
  pub no_line : o.whole_line ≡ false

check_whole_any :
    (o : Options) (line : List ℕ) (at len : ℕ) → AnyPlace o → check_whole o line at len ≡ true
unfolding check_whole
check_whole_any o line at len a = rw (a.no_word, a.no_line)

-- The string that begins k characters later, inside the string.
pub string_at-add :
    (line : List ℕ) (start k : ℕ)
    → k ≤ length (string_at line start)
    → string_at line (start + k) ≡ drop k (string_at line start)
string_at-add line start k h = rw (← drop-drop k start line) (cstr-drop k (drop start line) h)

module _ (o : Options) (pat line : List ℕ) (start : ℕ) where
  abbrev rest : List ℕ
  rest = string_at line start

  -- What the loop has found from offset k on.
  pub record Located (k : ℕ) (m : Span) (subs : List (Option Span)) : Type 0 where
    pub occurs : Occurs pat rest m.so
    pub width : m.eo ≡ m.so + length pat
    pub within : m.eo ≤ length rest
    pub from : k ≤ m.so
    pub accepted : check_whole o line (start + m.so) (length pat) ≡ true
    pub no_groups : subs ≡ replicate 9 none
    pub first : AnyPlace o → (j : ℕ) → k ≤ j → j < m.so → ¬ Occurs pat rest j

  -- The outcome of the loop: no regular expression is involved and the fuel is enough.
  abbrev pub Finds : ℕ → Match → Type 0
  Finds k (matched m subs) = Located k m subs
  Finds k no_match = AnyPlace o → (j : ℕ) → k ≤ j → ¬ Occurs pat rest j
  Finds k (regerror e) = ⊥
  Finds k starved = ⊥

  Occurs-at :
      (k i : ℕ)
      → k ≤ length rest
      → Occurs pat (string_at line (start + k)) i ≡ Occurs pat rest (k + i)
  Occurs-at k i h = rw (string_at-add line start k h, drop-drop i k rest)

  find_absent :
      (fuel k : ℕ)
      → strstr (string_at line (start + k)) pat ≡ none
      → find_fixed (suc fuel) o pat line start k ≡ no_match
  unfolding find_fixed
  find_absent fuel k h = rw (h, find_fixed)

  find_accepted :
      (fuel k i : ℕ)
      → strstr (string_at line (start + k)) pat ≡ some i
      → check_whole o line (start + (k + i)) (length pat) ≡ true
      → find_fixed (suc fuel) o pat line start k
        ≡ matched (record { so = k + i; eo = k + i + length pat }) (replicate 9 none)
  unfolding find_fixed
  find_accepted fuel k i h c = rw (h, c, find_fixed)

  find_rejected :
      (fuel k i : ℕ)
      → strstr (string_at line (start + k)) pat ≡ some i
      → check_whole o line (start + (k + i)) (length pat) ≡ false
      → find_fixed (suc fuel) o pat line start k
        ≡ find_fixed fuel o pat line start (k + i + length pat)
  unfolding find_fixed
  find_rejected fuel k i h c = rw (h, c, find_fixed)

  -- What is found after a rejected occurrence is found from the place before it.
  Finds-after :
      (k k' at : ℕ) (m : Match)
      → check_whole o line at (length pat) ≡ false
      → k ≤ k'
      → Finds k' m
      → Finds k m
  Finds-after k k' at (matched m subs) c le f = record {
    occurs = f.occurs;
    width = f.width;
    within = f.within;
    from = omega (arith, f.from);
    accepted = f.accepted;
    no_groups = f.no_groups;
    first = λ a j lo hi. let e = check_whole_any o line at (length pat) a in cc;
  }
  Finds-after k k' at no_match c le f =
      λ a j lo. let e = check_whole_any o line at (length pat) a in cc
  Finds-after k k' at (regerror e) c le f = f
  Finds-after k k' at starved c le f = f

  -- Where the C string is not searched yet, an index counts from `start` or from the offset k.
  Occurs-before :
      (k j : ℕ)
      → k ≤ length rest
      → k ≤ j
      → Occurs pat rest j
      → Occurs pat (string_at line (start + k)) (j - k)
  Occurs-before k j h lo x =
      rw (Occurs-at k (j - k) h) (let e : k + (j - k) ≡ j = omega arith in rw e x)

  find_fixed-Finds :
      (fuel k : ℕ)
      → 0 < length pat
      → k ≤ length rest
      → length rest < fuel + k
      → Finds k (find_fixed fuel o pat line start k)
  find_fixed-Finds zero k pos h enough = absurd (omega arith)
  find_fixed-Finds (suc fuel) k pos h enough =
      elim (Option-cases (strstr (string_at line (start + k)) pat)) [
        | inl n ↦ rw (find_absent fuel k n) (λ a j lo x.
            strstr-none (string_at line (start + k)) pat n (j - k) (Occurs-before k j h lo x))
        | inr (i, e) ↦
            let v = strstr-First (string_at line (start + k)) pat i e in
            let inside : k + i + length pat ≤ length rest =
              omega
                (arith, v.within, ap length (string_at-add line start k h), length-drop k rest) in
            elim (Bool-cases (check_whole o line (start + (k + i)) (length pat))) [
              | inl c ↦ rw (find_accepted fuel k i e c) (record {
                occurs = rw (← Occurs-at k i h) v.occurs;
                width = refl;
                within = inside;
                from = omega arith;
                accepted = c;
                no_groups = refl;
                first = λ a j lo hi x. v.before (j - k) (omega arith) (Occurs-before k j h lo x);
              })
              | inr c ↦ rw (find_rejected fuel k i e c) (
                  Finds-after k (k + i + length pat) (start + (k + i)) _ c (omega arith)
                    (find_fixed-Finds fuel (k + i + length pat) pos inside (omega arith)))
            ]
      ]

  -- For a fixed PATTERN that is not empty match_pattern ends; it returns the offsets of an
  -- occurrence, in the C string from start on, that check_whole accepts; and REG_NOMATCH or a later
  -- occurrence only if none stands before, where any place will do.
  pub match_fixed-Finds : 0 < length pat → Finds 0 (match_fixed o pat line start)
  unfolding match_fixed
  match_fixed-Finds pos =
      find_fixed-Finds (length line + 1) 0 pos (omega arith)
        (omega (arith, length-cstr (drop start line), length-drop start line))
