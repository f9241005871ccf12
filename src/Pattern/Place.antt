-- ===== src/Pattern/Place.antt =====
-- Where match_pattern places a match, for a fixed string and for a regular expression.
use rrep.Base.{
  ℕ, zero, suc, ◌+◌, ◌-◌, ◌≤◌, ◌<◌, ◌≡◌, refl, ap, inl, inr, true, false, not, none, some, List, [],
  ◌∷◌, arith, length, drop, Bool-cases, Option-cases, length-drop, get_or, ◌==◌, eq→==, ==→eq,
  ==→ne, ltb, ltb→lt, ltb→ge,
}
use mathlib.Core.Path.{subst}
use rrep.Options.{Options}
use rrep.Pattern.{
  Engine, Pattern, Match, matched, no_match, regerror, starved, match_pattern, match_fixed,
  check_whole, find_regex, cstr, string_at,
}
use rrep.Pattern.Strings.{length-cstr}
use rrep.Pattern.Fixed.{Finds, match_fixed-Finds}
use rrep.Pattern.Regex.{
  get_or_behind, IsLawful, FindsRegex, Match-cases, match_regex-FindsRegex, match_is_regex,
}

-- At a NUL begins the empty string.
string_at_nul :
    (line : List ℕ) (start : ℕ) → (get_or line start 0 == 0) ≡ true → string_at line start ≡ []
unfolding cstr
string_at_nul [] zero h = refl
string_at_nul [] (suc start) h = refl
string_at_nul (c ∷ line) zero h = rw h
string_at_nul (c ∷ line) (suc start) h = string_at_nul line start h

-- A character that is not NUL stands in the line.
pub before_end :
    (line : List ℕ) (start : ℕ) → (get_or line start 0 == 0) ≡ false → start < length line
before_end line start e = elim (Bool-cases (ltb start (length line))) [
  | inl l ↦ ltb→lt start (length line) l
  | inr g ↦
      absurd
        (==→ne (get_or line start 0) 0 e (get_or_behind line start (ltb→ge start (length line) g)))
]

module _ (E : Engine) (o : Options) (pattern : Pattern E) where
  pub match_is_fixed :
      (line : List ℕ) (start : ℕ)
      → o.fixed ≡ true
      → match_pattern E o pattern line start ≡ match_fixed o pattern.string line start
  unfolding match_pattern
  match_is_fixed line start f = rw f

  pub match_is_none :
      (line : List ℕ) (start : ℕ)
      → o.fixed ≡ false
      → pattern.compiled ≡ none
      → match_pattern E o pattern line start ≡ no_match
  unfolding match_pattern
  match_is_none line start f e = rw (f, e)

  pub match_is_compiled :
      (re : E.Regex) (line : List ℕ) (start : ℕ)
      → pattern.compiled ≡ some re
      → match_pattern E o pattern line start
        ≡ match_pattern E o (record { string = pattern.string; compiled = some re }) line start
  match_is_compiled re line start e =
      ap (λ c. match_pattern E o (record { string = pattern.string; compiled = c }) line start) e

module _ (E : Engine) (lawful : IsLawful E) (o : Options) (pattern : Pattern E)
    (pos : 0 < length pattern.string) where
  -- A match lies in the line, and at a NUL it is empty.
  abbrev pub Placed : List ℕ → ℕ → Match → Type 0
  Placed line start (matched m subs) =
      (m.so ≤ m.eo) × (start + m.eo ≤ length line) × ((get_or line start 0 == 0) ≡ true → m.eo ≡ 0)
  Placed line start no_match = Unit
  Placed line start (regerror e) = Unit
  Placed line start starved = ⊥

  fixed-Placed :
      (line : List ℕ) (start : ℕ) (x : Match)
      → start ≤ length line
      → Finds o pattern.string line start 0 x
      → Placed line start x
  fixed-Placed line start (matched m subs) h f = (
    omega (arith, f.width),
    omega (arith, f.within, length-cstr (drop start line), length-drop start line),
    λ z. absurd (omega (arith, f.width, f.within, ap length (string_at_nul line start z))),
  )
  fixed-Placed line start no_match h f = tt
  fixed-Placed line start (regerror e) h f = tt
  fixed-Placed line start starved h f = f

  -- A match at a NUL.
  abbrev Empty : Match → Type 0
  Empty (matched m subs) = m.eo ≡ 0
  Empty no_match = Unit
  Empty (regerror e) = Unit
  Empty starved = Unit

  find_regex-Empty :
      (fuel : ℕ) (re : E.Regex) (line : List ℕ) (start : ℕ)
      → (get_or line start 0 == 0) ≡ true
      → Empty (find_regex E (suc fuel) o re line start 0)
  unfolding find_regex
  find_regex-Empty fuel re line start z =
      elim (Match-cases (E.regexec re (string_at line (start + 0)) (not (start + 0 == 0)))) [
        | inl e ↦ rw (find_regex, e) tt
        | inr (inl (x, e)) ↦ rw (find_regex, e) tt
        | inr (inr (inr e)) ↦ rw (find_regex, e) tt
        | inr (inr (inl (m, subs, e))) ↦
            let top =
              lawful.inside re (string_at line (start + 0)) (not (start + 0 == 0)) m subs e in
            let none_left : m.eo ≡ 0 =
              omega (arith, top, ap length (string_at_nul line (start + 0) there)) in
            elim (Bool-cases (check_whole o line (start + 0 + m.so) (m.eo - m.so))) [
              | inl c ↦ rw (find_regex, e, c) (omega arith)
              | inr c ↦ rw (find_regex, e, c, eq→== m.eo 0 none_left, ==→eq _ 0 there) tt
            ]
      ]
    where
      there : (get_or line (start + 0) 0 == 0) ≡ true
      there = let same : start + 0 ≡ start = omega arith in rw same z

  regex-Placed :
      (re : E.Regex) (line : List ℕ) (start : ℕ) (x : Match)
      → ((get_or line start 0 == 0) ≡ true → Empty x)
      → FindsRegex E lawful o re line start x
      → Placed line start x
  regex-Placed re line start (matched m subs) n f = (f.ordered, f.within, n)
  regex-Placed re line start no_match n f = tt
  regex-Placed re line start (regerror e) n f = tt
  regex-Placed re line start starved n f = f

  -- Where regexec keeps to its interface, in a line that is not yet passed: a match lies in the line,
  -- and at a NUL it is empty.
  pub match_pattern-Placed :
      (line : List ℕ) (start : ℕ)
      → start ≤ length line
      → Placed line start (match_pattern E o pattern line start)
  match_pattern-Placed line start h = elim (Bool-cases o.fixed) [
    | inl f ↦
        rw (match_is_fixed E o pattern line start f)
          (fixed-Placed line start _ h (match_fixed-Finds o pattern.string line start pos))
    | inr f ↦ elim (Option-cases pattern.compiled) [
      | inl e ↦ rw (match_is_none E o pattern line start f e) tt
      | inr (re, e) ↦ rw (match_is_compiled E o pattern re line start e) (
          regex-Placed re line start _
            (λ z. rw (match_is_regex E lawful o re line start pattern.string f) (empty re z))
            (match_regex-FindsRegex E lawful o re line start pattern.string f h))
    ]
  ]
    where
      empty :
          (re : E.Regex)
          → (get_or line start 0 == 0) ≡ true
          → Empty (find_regex E (length line + 2) o re line start 0)
      empty re z =
          subst (λ n. Empty (find_regex E n o re line start 0)) (omega arith)
            (find_regex-Empty (length line + 1) re line start z)
