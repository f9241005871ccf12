-- ===== src/Bufferio/Search.antt =====
-- The loop of read_line that searches for the end of the line and refills the buffer.
use native.Mathlib.Decide.{dec_lt}
use rrep.Base.{
  ℕ, suc, ◌+◌, ◌-◌, ◌≤◌, ◌<◌, ◌≡◌, refl, ap, ◌∙◌, Bool, true, false, List, [], ◌∷◌, ◌++◌,
  append_assoc, arith, Bool-cases, ◌⊎◌, inl, inr, length,
}
use rrep.Bufferio.{
  File, Reader, delimits, success, end_reached, failure, out_of_fuel, ReadOut, finish_line,
}
use rrep.Messages.{read_file, realloc_buffer}
use rrep.Bufferio.Lines.{lines, lines_first}
use rrep.Bufferio.Memory.{Block, update, window, window-append, window_ext, window-update_out}
use rrep.Bufferio.Scan.{PlainUpTo, window-Plain, window_last}

-- The bytes of the current line and all that follows it, in the buffer and in the file.
abbrev pub content : Reader → File → List ℕ
content r f = window r.buffer r.start (r.buffer_fill - r.start) ++ f.rest

-- What holds whenever the loop starts a round.
pub record Searching (binary : Bool) (r : Reader) (f : File) : Type 0 where
  pub line_start : r.start < r.search_pos
  pub in_fill : r.search_pos ≤ r.buffer_fill
  pub in_buffer : r.buffer_fill + 1 ≤ r.buffer_size
  pub no_error : f.error ≡ false
  pub full : f.eof ≡ false → r.buffer_fill + 1 ≡ r.buffer_size
  pub ended : f.eof ≡ true → f.rest ≡ []
  pub plain : PlainUpTo binary r.buffer r.start r.search_pos

-- What holds between two calls: the line is terminated, and its successor waits behind it.
pub record Ready (r : Reader) (f : File) : Type 0 where
  pub positive : 0 < r.search_pos
  pub in_fill : r.search_pos ≤ r.buffer_fill
  pub in_buffer : r.buffer_fill + 1 ≤ r.buffer_size
  pub no_error : f.error ≡ false
  pub full : f.eof ≡ false → r.buffer_fill + 1 ≡ r.buffer_size
  pub ended : f.eof ≡ true → f.rest ≡ []
  pub progress : f.eof ≡ false → r.search_pos < r.buffer_fill
  pub terminated : r.buffer r.search_pos ≡ 0

-- What is still to be delivered then, with the saved character in its place.
abbrev pub pending : Reader → File → List ℕ
pending r f =
    window (update r.buffer r.search_pos r.null_replace) r.search_pos (r.buffer_fill - r.search_pos)
    ++ f.rest

-- The search has delivered the first line of the content, or failed for one of two reasons and
-- closed the stream.
abbrev pub Delivers : Bool → (ℕ → Bool) → List ℕ → File → ReadOut → Type 0
Delivers binary alloc bytes f₀ (success s n, r, f) =
    (lines binary bytes ≡ window r.buffer s n ∷ lines binary (pending r f))
    × Ready r f
    × (f.closes ≡ f₀.closes)
    × (f.bad ≡ f₀.bad)
    × (length f.rest ≤ length f₀.rest)
    × (0 < n)
Delivers binary alloc bytes f₀ (end_reached, r, f) = ⊥
Delivers binary alloc bytes f₀ (failure e, r, f) =
    (f.closes ≡ f₀.closes + 1)
    × (((e ≡ read_file) × (f₀.bad ≡ true)) ⊎ ((e ≡ realloc_buffer) × ((n : ℕ) × (alloc n ≡ false))))
Delivers binary alloc bytes f₀ (out_of_fuel, r, f) = ⊥

-- The content is the line, and what stands behind it in the buffer and in the file.
pub content_split :
    (buf : Block) (a b c : ℕ) (rest : List ℕ)
    → a ≤ b
    → b ≤ c
    → window buf a (c - a) ++ rest ≡ window buf a (b - a) ++ (window buf b (c - b) ++ rest)
content_split buf a b c rest h k =
    rw (split, window-append buf a (b - a) (c - b), meet) (append_assoc _ _ rest)
  where
    split : c - a ≡ (b - a) + (c - b)
    split = omega arith

    meet : a + (b - a) ≡ b
    meet = omega arith

line_split :
    (buf : Block) (a b : ℕ)
    → a < b
    → window buf a (b - a) ≡ window buf a (b - a - 1) ++ (buf (b - 1) ∷ [])
line_split buf a b h =
    ap (window buf a) split
    ∙ window_last buf a (b - a - 1)
    ∙ ap (λ k. window buf a (b - a - 1) ++ (buf k ∷ [])) last
  where
    split : b - a ≡ suc (b - a - 1)
    split = omega arith

    last : a + (b - a - 1) ≡ b - 1
    last = omega arith

-- The scanned stretch is the first line.
lines_scanned :
    (binary : Bool) (buf : Block) (a b c : ℕ) (rest : List ℕ)
    → a < b
    → b ≤ c
    → PlainUpTo binary buf a b
    → (delimits binary (buf (b - 1)) ≡ true) ⊎ (window buf b (c - b) ++ rest ≡ [])
    → lines binary (window buf a (c - a) ++ rest)
      ≡ window buf a (b - a) ∷ lines binary (window buf b (c - b) ++ rest)
lines_scanned binary buf a b c rest h k p e =
    rw (content_split buf a b c rest (omega arith) k, line_split buf a b h)
      (lines_first binary _ _ _ (window-Plain binary buf a (b - a - 1) plain) e)
  where
    plain : PlainUpTo binary buf a (a + (b - a - 1) + 1)
    plain i lo hi = p i lo (omega arith)

-- At the end of the file nothing follows a line that reaches the end of the buffer.
nothing_follows :
    (r : Reader) (f : File)
    → r.search_pos ≡ r.buffer_fill
    → f.rest ≡ []
    → window r.buffer r.search_pos (r.buffer_fill - r.search_pos) ++ f.rest ≡ []
unfolding window
nothing_follows r f e q = let z : r.buffer_fill - r.search_pos ≡ 0 = omega arith in rw (z, q)

line_ends :
    (binary : Bool) (r : Reader) (f : File)
    → Searching binary r f
    → (f.eof ≡ false → r.search_pos < r.buffer_fill)
    → (r.search_pos < r.buffer_fill → delimits binary (r.buffer (r.search_pos - 1)) ≡ true)
    → (delimits binary (r.buffer (r.search_pos - 1)) ≡ true)
      ⊎ (window r.buffer r.search_pos (r.buffer_fill - r.search_pos) ++ f.rest ≡ [])
line_ends binary r f v more found = elim (dec_lt r.search_pos r.buffer_fill) [
  | yes h ↦ inl (found h)
  | no h ↦ elim (Bool-cases f.eof) [
    | inl e ↦ inr (nothing_follows r f (omega (arith, v.in_fill)) (v.ended e))
    | inr e ↦ absurd (h (more e))
  ]
]

-- Saving the character after the line and restoring it is no change.
restored :
    (buf : Block) (p i n : ℕ) → window (update (update buf p 0) p (buf p)) i n ≡ window buf i n
restored buf p i n = window_ext _ buf i i n (λ k h. ground arith)

pub finish_line-Delivers :
    (binary : Bool) (alloc : ℕ → Bool) (r : Reader) (f : File)
    → Searching binary r f
    → (f.eof ≡ false → r.search_pos < r.buffer_fill)
    → (r.search_pos < r.buffer_fill → delimits binary (r.buffer (r.search_pos - 1)) ≡ true)
    → Delivers binary alloc (content r f) f (finish_line r f)
unfolding finish_line
finish_line-Delivers binary alloc r f v more found = (
  first,
  record {
    positive = omega arith;
    in_fill = v.in_fill;
    in_buffer = v.in_buffer;
    no_error = v.no_error;
    full = v.full;
    ended = v.ended;
    progress = more;
    terminated = ground arith;
  },
  refl,
  refl,
  omega arith,
  omega arith,
)
  where
    open r use {buffer, start, search_pos, buffer_fill}

    first :
        lines binary (content r f)
        ≡ window (update buffer search_pos 0) start (search_pos - start)
          ∷ lines binary (
              window
                (update (update buffer search_pos 0) search_pos (buffer search_pos))
                search_pos
                (buffer_fill - search_pos)
              ++ f.rest)
    first =
        rw
          (
            window-update_out buffer search_pos 0 start (search_pos - start) (inr (omega arith)),
            restored buffer search_pos search_pos (buffer_fill - search_pos),
          )
          (lines_scanned binary buffer start search_pos buffer_fill f.rest v.line_start v.in_fill
            v.plain (line_ends binary r f v more found))
