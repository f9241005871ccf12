-- ===== src/Replace/Text.antt =====
-- Replacing line by line is replacing in the whole text, if the pattern holds no line delimiter.
use mathlib.Core.List.{flat_map}
use rrep.Base.{
  ℕ, zero, suc, ◌-◌, ◌≡◌, ◌≤◌, ◌<◌, refl, sym, ap, ◌∙◌, ◌⊎◌, inl, inr, Bool, true, false, ◌&&◌,
  List, [], ◌∷◌, ◌++◌, arith, Bool-cases, append-nil, append_assoc, length, length-append, All,
  ◌==◌,
}
use rrep.Bufferio.{newline, delimits}
use rrep.Bufferio.Lines.{lines, Plain, lines_delimited, lines_last}
use rrep.Pattern.{is_prefix, cstr}
use rrep.Pattern.Strings.{&&-true}
use rrep.Replace.Global.{replace_all, replace_all_there, replace_all_nil}

-- Where the first line of a text ends.
pub record FirstLine (binary : Bool) (xs : List ℕ) : Type 0 where
  pub before : List ℕ
  pub last : ℕ
  pub behind : List ℕ
  pub whole : xs ≡ before ++ (last ∷ behind)
  pub plain : Plain binary before
  pub ends : (delimits binary last ≡ true) ⊎ (behind ≡ [])

first_line : (binary : Bool) (c : ℕ) (cs : List ℕ) → FirstLine binary (c ∷ cs)
first_line binary c [] = record {
  before = [];
  last = c;
  behind = [];
  whole = refl;
  plain = tt;
  ends = inr refl;
}
first_line binary c (d ∷ cs) = elim (Bool-cases (delimits binary c)) [
  | inl e ↦ record {
    before = [];
    last = c;
    behind = d ∷ cs;
    whole = refl;
    plain = tt;
    ends = inl e;
  }
  | inr e ↦
      let f = first_line binary d cs in
      record {
        before = c ∷ f.before;
        last = f.last;
        behind = f.behind;
        whole = ap (λ t. c ∷ t) f.whole;
        plain = (e, f.plain);
        ends = f.ends;
      }
]

-- The characters of a text that is searched as it stands: no NUL.
abbrev pub Text : List ℕ → Type 0
Text = All (λ c. (c == 0) ≡ false)

pub cstr-Text : (s : List ℕ) → Text s → cstr s ≡ s
unfolding cstr
cstr-Text [] h = refl
cstr-Text (c ∷ s) (h, t) = rw h (ap (λ k. c ∷ k) (cstr-Text s t))

Text-behind : (w : List ℕ) (c : ℕ) (r : List ℕ) → Text (w ++ (c ∷ r)) → ((c == 0) ≡ false) × Text r
Text-behind [] c r h = h
Text-behind (x ∷ w) c r (hx, h) = Text-behind w c r h

-- In a text without NUL only a newline ends a line.
text_delimiter : (binary : Bool) (c : ℕ) → (c == 0) ≡ false → delimits binary c ≡ true → c ≡ newline
text_delimiter binary c h d = ground arith

-- A pattern that no line delimiter occurs in.
abbrev pub OneLine : List ℕ → Type 0
OneLine = All (λ c. (c == newline) ≡ false)

module _ (p text : List ℕ) (pos : 0 < length p) (one : OneLine p) where
  -- Whether p stands at the front does not depend on what follows a newline, and p then ends before.
  prefix_line :
      (q w r : List ℕ)
      → OneLine q
      → is_prefix q (w ++ (newline ∷ r)) ≡ is_prefix q (w ++ (newline ∷ []))
  unfolding is_prefix
  prefix_line [] w r h = refl
  prefix_line (x ∷ q) [] r (hx, h) = rw hx
  prefix_line (x ∷ q) (c ∷ w) r (hx, h) = ap (λ b. x == c && b) (prefix_line q w r h)

  prefix_width :
      (q w r : List ℕ) → OneLine q → is_prefix q (w ++ (newline ∷ r)) ≡ true → length q ≤ length w
  unfolding is_prefix
  prefix_width [] w r h e = omega arith
  prefix_width (x ∷ q) [] r (hx, h) e = absurd (cc hx)
  prefix_width (x ∷ q) (c ∷ w) r (hx, h) e =
      let (e1, e2) = &&-true (x == c) (is_prefix q (w ++ (newline ∷ r))) e in
      omega (arith, prefix_width q w r h e2)

  not_at_newline : (r : List ℕ) → is_prefix p (newline ∷ r) ≡ false
  not_at_newline r = elim (Bool-cases (is_prefix p (newline ∷ r))) [
    | inl e ↦ absurd (omega (arith, prefix_width p [] r one e))
    | inr e ↦ e
  ]

  replace_all_step :
      (c : ℕ) (s : List ℕ)
      → is_prefix p (c ∷ s) ≡ true
      → replace_all p text zero (c ∷ s) ≡ text ++ replace_all p text (length p - 1) s
  unfolding replace_all
  replace_all_step c s h = rw (h, replace_all)

  replace_all_pass :
      (skip c : ℕ) (s : List ℕ) → replace_all p text (suc skip) (c ∷ s) ≡ replace_all p text skip s
  unfolding replace_all
  replace_all_pass skip c s = refl

  replace_all_line :
      (skip : ℕ) (w r : List ℕ)
      → skip ≤ length w
      → replace_all p text skip (w ++ (newline ∷ r))
        ≡ replace_all p text skip (w ++ (newline ∷ [])) ++ replace_all p text zero r
  replace_all_line zero [] r h = rw (
    replace_all_there p text newline r (not_at_newline r),
    replace_all_there p text newline [] (not_at_newline []),
    replace_all_nil p text zero,
  )
  replace_all_line zero (c ∷ w) r h = elim (Bool-cases (is_prefix p (c ∷ w ++ (newline ∷ r)))) [
    | inl e ↦
        rw
          (
            replace_all_step c (w ++ (newline ∷ r)) e,
            replace_all_step c (w ++ (newline ∷ [])) (sym (prefix_line p (c ∷ w) r one) ∙ e),
            replace_all_line (length p - 1) w r (omega (arith, prefix_width p (c ∷ w) r one e)),
          )
          (sym (append_assoc text _ _))
    | inr e ↦ rw (
      replace_all_there p text c (w ++ (newline ∷ r)) e,
      replace_all_there p text c (w ++ (newline ∷ [])) (sym (prefix_line p (c ∷ w) r one) ∙ e),
      replace_all_line zero w r (omega arith),
    )
  ]
  replace_all_line (suc skip) [] r h = absurd (omega arith)
  replace_all_line (suc skip) (c ∷ w) r h =
      rw
        (
          replace_all_pass skip c (w ++ (newline ∷ r)),
          replace_all_pass skip c (w ++ (newline ∷ [])),
        )
        (replace_all_line skip w r (omega arith))

  lines_nil :
      (binary : Bool)
      → flat_map (replace_all p text zero) (lines binary []) ≡ replace_all p text zero []
  unfolding lines flat_map replace_all
  lines_nil binary = refl

  one_line_left :
      (binary : Bool) (w : List ℕ) (c : ℕ)
      → Plain binary w
      → flat_map (replace_all p text zero) (lines binary (w ++ (c ∷ [])))
        ≡ replace_all p text zero (w ++ (c ∷ []))
  unfolding flat_map
  one_line_left binary w c h = rw (lines_last binary w c h, flat_map) (append-nil _)

  more_lines :
      (binary : Bool) (w r : List ℕ)
      → Plain binary w
      → flat_map (replace_all p text zero) (lines binary r) ≡ replace_all p text zero r
      → flat_map (replace_all p text zero) (lines binary (w ++ (newline ∷ r)))
        ≡ replace_all p text zero (w ++ (newline ∷ r))
  unfolding flat_map
  more_lines binary w r h ih =
      rw (lines_delimited binary w newline r h refl, flat_map, ih)
        (sym (replace_all_line zero w r (omega arith)))

  FirstLine-delivers :
      (binary : Bool) (xs : List ℕ)
      → ((ys : List ℕ)
          → length ys < length xs
          → Text ys
          → flat_map (replace_all p text zero) (lines binary ys) ≡ replace_all p text zero ys)
      → Text xs
      → FirstLine binary xs
      → flat_map (replace_all p text zero) (lines binary xs) ≡ replace_all p text zero xs
  FirstLine-delivers binary xs ih t f = elim f.ends [
    | inr e ↦
        let whole : xs ≡ f.before ++ (f.last ∷ []) = rw e at f.whole in
        rw whole (one_line_left binary f.before f.last f.plain)
    | inl d ↦
        let t' : Text (f.before ++ (f.last ∷ f.behind)) = rw f.whole at t in
        let whole : xs ≡ f.before ++ (newline ∷ f.behind) =
          rw (text_delimiter binary f.last (Text-behind f.before f.last f.behind t').0 d) at
            f.whole in
        rw whole (
          more_lines binary f.before f.behind f.plain (
            ih f.behind
              (omega (arith, ap length f.whole, length-append f.before (f.last ∷ f.behind)))
              (Text-behind f.before f.last f.behind t').1))
  ]

  -- Rewriting each line of a text without NUL rewrites the text.
  flat_map_below :
      (binary : Bool) (n : ℕ) (xs : List ℕ)
      → length xs < n
      → Text xs
      → flat_map (replace_all p text zero) (lines binary xs) ≡ replace_all p text zero xs
  flat_map_below binary zero xs le t = absurd (omega arith)
  flat_map_below binary (suc n) [] le t = lines_nil binary
  flat_map_below binary (suc n) (c ∷ cs) le t =
      FirstLine-delivers binary (c ∷ cs) (λ ys lt u. flat_map_below binary n ys (omega arith) u) t
        (first_line binary c cs)

  pub flat_map-replace_all :
      (binary : Bool) (xs : List ℕ)
      → Text xs
      → flat_map (replace_all p text zero) (lines binary xs) ≡ replace_all p text zero xs
  flat_map-replace_all binary xs t = flat_map_below binary (suc (length xs)) xs (omega arith) t
