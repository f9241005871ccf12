-- ===== src/Names.antt =====
-- check_include_name and check_name of src/rrep.c: which names qualify for processing.
pub mod Accepted
use rrep.Base.{
  ℕ, Bool, true, false, not, ◌&&◌, Option, none, some, List, [], ◌∷◌, ◌==◌, if◌then◌else◌,
}
use rrep.Options.{Options}

-- The pattern lists of gnulib's exclude module, as far as the program uses them. The flag of
-- `add_exclude` is EXCLUDE_INCLUDE.
pub record Excludes : Type 1 where
  pub Exclude : Type 0
  pub new_exclude : Exclude
  pub add_exclude : Exclude → List ℕ → Bool → Exclude
  pub excluded_file_name : Exclude → List ℕ → Bool

module _ (X : Excludes) where
  -- A pattern list that is not there excludes nothing.
  abbrev pub excludes : Option X.Exclude → List ℕ → Bool
  excludes none name = false
  excludes (some x) name = X.excluded_file_name x name

  unfoldable pub check_include_name : List ℕ → Option X.Exclude → Option X.Exclude → Bool
  check_include_name name included excluded =
      if excludes included name then false else if excludes excluded name then false else true

  -- A name that begins with a dot and does not end there.
  abbrev pub is_hidden : List ℕ → Bool
  is_hidden [] = false
  is_hidden (c ∷ []) = false
  is_hidden (c ∷ d ∷ s) = c == b'.'

  -- check_name; NULL is `none`.
  unfoldable pub check_name : Options → Option (List ℕ) → Option X.Exclude → Option X.Exclude → Bool
  unfolding check_include_name
  check_name o none included excluded = false
  check_name o (some []) included excluded = false
  check_name o (some (c ∷ s)) included excluded =
      if is_hidden (c ∷ s) && not o.all then false else check_include_name (c ∷ s) included excluded
