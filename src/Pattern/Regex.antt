-- ===== src/Pattern/Regex.antt =====
-- match_pattern for a regular expression: where it matches, and that its loop ends.
use rrep.Base.{
  ℕ, zero, suc, ◌+◌, ◌-◌, ◌≤◌, ◌<◌, ◌≡◌, ◌≢◌, refl, ◌⊎◌, inl, inr, Bool, true, false, not, ◌||◌,
  Option, some, List, [], ◌∷◌, arith, length, drop, Bool-cases, length-drop, get_or, ◌==◌, ==→ne,
  ltb, ltb→lt, ltb→ge,
}
use rrep.Options.{Options}
use rrep.Bufferio.{newline}
use rrep.Pattern.{
  Engine, Span, Match, matched, no_match, regerror, starved, check_whole, string_at, shift_span,
  shift_spans, find_regex, match_pattern,
}
use rrep.Pattern.Strings.{length-cstr}

-- regexec returns offsets in the string that it was given, or one of its codes.
pub record IsLawful (E : Engine) : Type 0 where
  pub ordered :
      (re : E.Regex) (s : List ℕ) (notbol : Bool) (m : Span) (subs : List (Option Span))
      → E.regexec re s notbol ≡ matched m subs
      → m.so ≤ m.eo
  pub inside :
      (re : E.Regex) (s : List ℕ) (notbol : Bool) (m : Span) (subs : List (Option Span))
      → E.regexec re s notbol ≡ matched m subs
      → m.eo ≤ length s
  pub answers : (re : E.Regex) (s : List ℕ) (notbol : Bool) → E.regexec re s notbol ≢ starved

pub Match-cases :
    (x : Match)
    → (x ≡ no_match)
      ⊎ ((e : ℕ) × (x ≡ regerror e))
      ⊎ ((m : Span) × (subs : List (Option Span)) × (x ≡ matched m subs))
      ⊎ (x ≡ starved)
Match-cases no_match = inl refl
Match-cases (regerror e) = inr (inl (e, refl))
Match-cases (matched m subs) = inr (inr (inl (m, subs, refl)))
Match-cases starved = inr (inr (inr refl))

-- Behind a line stands NUL.
pub get_or_behind : (line : List ℕ) (i : ℕ) → length line ≤ i → get_or line i 0 ≡ 0
get_or_behind [] i h = refl
get_or_behind (c ∷ line) zero h = absurd (omega arith)
get_or_behind (c ∷ line) (suc i) h = get_or_behind line i (omega arith)

module _ (E : Engine) (lawful : IsLawful E) (o : Options) (re : E.Regex) (line : List ℕ)
    (start : ℕ) where
  -- What regexec answers at an offset.
  abbrev answer : ℕ → Match
  answer k = E.regexec re (string_at line (start + k)) (not (start + k == 0))

  -- A match inside the line that check_whole accepts and that regexec has found.
  pub record Found (m : Span) (subs : List (Option Span)) : Type 0 where
    pub ordered : m.so ≤ m.eo
    pub within : start + m.eo ≤ length line
    pub accepted : check_whole o line (start + m.so) (m.eo - m.so) ≡ true
    pub reported :
        (k : ℕ) × (m' : Span) × (subs' : List (Option Span)) × (answer k ≡ matched m' subs')
        × (m ≡ shift_span k m')
        × (subs ≡ shift_spans k subs')

  -- The outcome of the loop: it ends, and an error is one of regexec.
  abbrev pub FindsRegex : Match → Type 0
  FindsRegex (matched m subs) = Found m subs
  FindsRegex no_match = Unit
  FindsRegex (regerror e) = (k : ℕ) × (answer k ≡ regerror e)
  FindsRegex starved = ⊥

  length-string_at :
      (k : ℕ)
      → start + k ≤ length line
      → length (string_at line (start + k)) ≤ length line - (start + k)
  length-string_at k h =
      omega (arith, length-cstr (drop (start + k) line), length-drop (start + k) line)

  abbrev at_end : ℕ → Bool
  at_end k = get_or line (start + k) 0 == newline || get_or line (start + k) 0 == 0

  inside_line : (k : ℕ) → start + k ≤ length line → at_end k ≡ false → start + k < length line
  inside_line k h e = elim (Bool-cases (ltb (start + k) (length line))) [
    | inl l ↦ ltb→lt (start + k) (length line) l
    | inr g ↦
        let z = get_or_behind line (start + k) (ltb→ge (start + k) (length line) g) in
        absurd (let q = (rw z at e) in cc)
  ]

  find_regex-FindsRegex :
      (fuel k : ℕ)
      → start + k ≤ length line
      → length line < fuel + (start + k)
      → FindsRegex (find_regex E fuel o re line start k)
  unfolding find_regex
  find_regex-FindsRegex zero k h enough = absurd (omega arith)
  find_regex-FindsRegex (suc fuel) k h enough = elim (Match-cases (answer k)) [
    | inl e ↦ rw (find_regex, e) tt
    | inr (inl (x, e)) ↦ rw (find_regex, e) (k, e)
    | inr (inr (inl (m, subs, e))) ↦
        let top = lawful.inside re (string_at line (start + k)) (not (start + k == 0)) m subs e in
        let up = lawful.ordered re (string_at line (start + k)) (not (start + k == 0)) m subs e in
        let room = length-string_at k h in
        elim (Bool-cases (check_whole o line (start + k + m.so) (m.eo - m.so))) [
          | inl c ↦
              rw (find_regex, e, c)
                (record {
                  ordered = omega arith;
                  within = omega arith;
                  accepted =
                      let a : start + (m.so + k) ≡ start + k + m.so = omega arith in
                      let b : m.eo + k - (m.so + k) ≡ m.eo - m.so = omega arith in rw (a, b) c;
                  reported = (k, m, subs, e, refl, refl);
                })
          | inr c ↦ elim (Bool-cases (m.eo == 0)) [
            | inr z ↦
                rw (find_regex, e, c, z)
                  (find_regex-FindsRegex fuel (k + m.eo) (omega arith)
                    (omega (arith, ==→ne m.eo 0 z)))
            | inl z ↦ elim (Bool-cases (at_end k)) [
              | inl b ↦ rw (find_regex, e, c, z, b) tt
              | inr b ↦
                  rw (find_regex, e, c, z, b)
                    (find_regex-FindsRegex fuel (k + 1) (omega (arith, inside_line k h b))
                      (omega arith))
            ]
          ]
        ]
    | inr (inr (inr e)) ↦
        absurd (lawful.answers re (string_at line (start + k)) (not (start + k == 0)) e)
  ]

  pub match_is_regex :
      (string : List ℕ)
      → o.fixed ≡ false
      → match_pattern E o (record { string = string; compiled = some re }) line start
        ≡ find_regex E (length line + 2) o re line start 0
  unfolding match_pattern
  match_is_regex string f = rw f

  -- Where regexec keeps to its interface, in a line that is not yet passed: match_pattern for a
  -- regular expression ends; a match lies inside the line, is accepted by check_whole and was found
  -- by regexec, its offsets counted from `start`; and an error is one of regexec.
  pub match_regex-FindsRegex :
      (string : List ℕ)
      → o.fixed ≡ false
      → start ≤ length line
      → FindsRegex (match_pattern E o (record { string = string; compiled = some re }) line start)
  match_regex-FindsRegex string f h =
      rw (match_is_regex string f)
        (find_regex-FindsRegex (length line + 2) 0 (omega arith) (omega arith))
