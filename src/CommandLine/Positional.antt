-- ===== src/CommandLine/Positional.antt =====
-- Which arguments become PATTERN, REPLACEMENT and files.
use rrep.Base.{
  ℕ, ◌≡◌, refl, Option, none, some, List, [], ◌∷◌, ◌++◌, append-nil, append_assoc, drop, get_elem?,
}
use rrep.CommandLine.{parse_arguments}

files_kept :
    (args files : List (List ℕ)) (p r : List ℕ)
    → parse_arguments args (some p, some r, files) ≡ (some p, some r, files ++ args)
unfolding parse_arguments
files_kept [] files p r = rw (append-nil files)
files_kept (arg ∷ args) files p r =
    rw (files_kept args (files ++ (arg ∷ [])) p r, append_assoc files (arg ∷ []) args)

-- What an argument at a place is, if the string is not known yet.
abbrev pub or_argument : Option (List ℕ) → Option (List ℕ) → Option (List ℕ)
or_argument none x = x
or_argument (some p) x = some p

-- How many arguments a string takes.
abbrev pub wanted : Option (List ℕ) → ℕ
wanted none = 1
wanted (some p) = 0

abbrev total : Option (List ℕ) → Option (List ℕ) → ℕ
total p r = elim p [ none ↦ elim r [ none ↦ 2 | some _ ↦ 1 ] | some _ ↦ wanted r ]

-- PATTERN and REPLACEMENT, as far as the options have not given them, are the first arguments, in
-- this order; the files are the others.
pub parse_arguments_lem :
    (args : List (List ℕ)) (p r : Option (List ℕ))
    → parse_arguments args (p, r, []) ≡ (
      or_argument p (get_elem? args 0),
      or_argument r (get_elem? args (wanted p)),
      drop (total p r) args,
    )
unfolding parse_arguments
parse_arguments_lem [] none none = refl
parse_arguments_lem [] none (some r) = refl
parse_arguments_lem [] (some p) none = refl
parse_arguments_lem [] (some p) (some r) = refl
parse_arguments_lem (a ∷ []) none none = refl
parse_arguments_lem (a ∷ b ∷ args) none none = files_kept args [] a b
parse_arguments_lem (a ∷ args) none (some r) = files_kept args [] a r
parse_arguments_lem (a ∷ args) (some p) none = files_kept args [] p a
parse_arguments_lem (a ∷ args) (some p) (some r) = files_kept (a ∷ args) [] p r
