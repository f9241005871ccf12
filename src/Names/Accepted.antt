-- ===== src/Names/Accepted.antt =====
-- Which names check_name accepts.
use rrep.Base.{ℕ, ◌≡◌, ◌≢◌, true, false, Option, some, List, [], ◌∷◌}
use rrep.Options.{Options}
use rrep.Names.{Excludes}

module _ (X : Excludes) where
  -- The name is more than a dot and begins with one.
  abbrev pub IsHidden : List ℕ → Type 0
  IsHidden name = (d : ℕ) × (s : List ℕ) × (name ≡ b'.' ∷ d ∷ s)

  -- The list, where there is one, does not match the name.
  abbrev pub IsPassed : Option X.Exclude → List ℕ → Type 0
  IsPassed list name = (x : X.Exclude) → list ≡ some x → X.excluded_file_name x name ≡ false

  -- The name is not empty, is hidden only with OPT_ALL, and no list that is there matches it.
  pub record IsAccepted (o : Options) (included excluded : Option X.Exclude) (name : List ℕ)
      : Type 0 where
    pub some_name : name ≢ []
    pub shown : IsHidden name → o.all ≡ true
    pub is_included : IsPassed included name
    pub not_excluded : IsPassed excluded name
