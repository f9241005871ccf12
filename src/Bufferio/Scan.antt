-- ===== src/Bufferio/Scan.antt =====
-- The inner loop of read_line: where the scan of the buffer stops.
use native.Mathlib.Decide.{dec_le}
use rrep.Base.{
  ℕ, zero, suc, ◌+◌, ◌-◌, ◌≤◌, ◌<◌, ◌≡◌, ap, ◌∙◌, Bool, true, false, [], ◌∷◌, ◌++◌, arith,
  Bool-cases, inl, inr,
}
use rrep.Bufferio.{delimits, scan}
use rrep.Bufferio.Lines.{Plain}
use rrep.Bufferio.Memory.{Block, window, window-append}

-- No character from index a up to index b - 2 ends a line.
abbrev pub PlainUpTo : Bool → Block → ℕ → ℕ → Type 0
PlainUpTo binary buf a b = (k : ℕ) → a ≤ k → suc k < b → delimits binary (buf k) ≡ false

-- Where the scan of the buffer stops.
pub record Stops (binary : Bool) (buf : Block) (pos n pos' : ℕ) : Type 0 where
  pub after : pos ≤ pos'
  pub within : pos' ≤ pos + n
  pub plain : (k : ℕ) → pos ≤ suc k → suc k < pos' → delimits binary (buf k) ≡ false
  pub found : pos' < pos + n → delimits binary (buf (pos' - 1)) ≡ true

-- One more plain character in front of a stretch.
plain_before :
    (binary : Bool) (buf : Block) (pos : ℕ) {q : ℕ}
    → delimits binary (buf (pos - 1)) ≡ false
    → ((k : ℕ) → pos + 1 ≤ suc k → suc k < q → delimits binary (buf k) ≡ false)
    → (k : ℕ) → pos ≤ suc k
    → suc k < q
    → Dec (pos + 1 ≤ suc k)
    → delimits binary (buf k) ≡ false
plain_before binary buf pos p h k a b (yes c) = h k c b
plain_before binary buf pos p h k a b (no c) = let e : k ≡ pos - 1 = omega arith in rw e p

pub scan-Stops :
    (n : ℕ) (binary : Bool) (buf : Block) (pos : ℕ)
    → 0 < pos
    → Stops binary buf pos n (scan n binary buf pos)
unfolding scan
scan-Stops zero binary buf pos h = record {
  after = omega arith;
  within = omega arith;
  plain = λ k a b. absurd (omega arith);
  found = λ b. absurd (omega arith);
}
scan-Stops (suc n) binary buf pos h = elim (Bool-cases (delimits binary (buf (pos - 1)))) [
  | inl d ↦ rw d (record {
    after = omega arith;
    within = omega arith;
    plain = λ k a b. absurd (omega arith);
    found = λ b. d;
  })
  | inr p ↦
      let ih = scan-Stops n binary buf (pos + 1) (omega arith) in
      rw p (record {
        after = omega (arith, ih.after);
        within = omega (arith, ih.within);
        plain = λ k a b. plain_before binary buf pos p ih.plain k a b (dec_le (pos + 1) (suc k));
        found = λ b. ih.found (omega arith);
      })
]

pub window-Plain :
    (binary : Bool) (buf : Block) (i n : ℕ)
    → PlainUpTo binary buf i (i + n + 1)
    → Plain binary (window buf i n)
unfolding window
window-Plain binary buf i zero h = tt
window-Plain binary buf i (suc n) h = (
  h i (omega arith) (omega arith),
  window-Plain binary buf (i + 1) n (λ k a b. h k (omega arith) (omega arith)),
)

-- A stretch of at least one character, with its last one apart.
pub window_last :
    (buf : Block) (i n : ℕ) → window buf i (suc n) ≡ window buf i n ++ (buf (i + n) ∷ [])
unfolding window
window_last buf i n =
    let e : suc n ≡ n + 1 = omega arith in ap (window buf i) e ∙ window-append buf i n 1
