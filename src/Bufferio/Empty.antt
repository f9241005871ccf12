-- ===== src/Bufferio/Empty.antt =====
-- read_line on an empty file. The first call delivers a line that is in no file, or it meets a device
-- error; the second call reports the end.
use rrep.Base.{
  ℕ, suc, ◌-◌, ◌+◌, ◌≤◌, ◌≡◌, refl, Bool, true, false, [], ◌∷◌, arith, le→leb, lt→ltb, ltb, inl,
  inr, Bool-cases,
}
use rrep.Bufferio.{
  File, Reader, success, end_reached, failure, out_of_fuel, ReadOut, read_line, reset, search,
  finish_line, scan, first_fill,
}
use rrep.Messages.{read_file}
use rrep.Bufferio.Memory.{window, store_all}

-- The line of one byte, at the end of the file; or the failure.
abbrev pub DeliversStale : ℕ → File → ReadOut → Type 0
DeliversStale stale f₀ (success i n, r, f) =
    (window r.buffer i n ≡ stale ∷ [])
    × (f.eof ≡ true)
    × (r.buffer_fill ≤ r.search_pos)
    × (f.closes ≡ f₀.closes)
    × (f.bad ≡ f₀.bad)
    × (2 ≤ r.buffer_size)
DeliversStale stale f₀ (end_reached, r, f) = ⊥
DeliversStale stale f₀ (failure e, r, f) =
    (e ≡ read_file) × (f₀.bad ≡ true) × (f.closes ≡ f₀.closes + 1)
DeliversStale stale f₀ (out_of_fuel, r, f) = ⊥

module _ (binary : Bool) (alloc : ℕ → Bool) (r : Reader) (f : File) where
  -- With a buffer of at least two bytes, on an empty file: the first call of read_line delivers the
  -- byte that the buffer held at its beginning as a line, or fails at a device error.
  pub read_line_nothing :
      2 ≤ r.buffer_size
      → f.rest ≡ []
      → f.eof ≡ false
      → f.error ≡ false
      → DeliversStale (r.buffer 0) f (read_line binary alloc true r f)
  unfolding read_line search finish_line scan window store_all first_fill
  read_line_nothing big e eof error = elim (Bool-cases f.bad) [
    | inl b ↦ rw (e, eof, error, b, some_room, is_short) (refl, refl, refl)
    | inr b ↦ rw (e, eof, error, b, some_room, is_short) (refl, refl, omega arith, refl, refl, big)
  ]
    where
      some_room : r.buffer_size - 1 ≡ suc (r.buffer_size - 2)
      some_room = omega arith

      is_short : ltb 0 (suc (r.buffer_size - 2)) ≡ true
      is_short = lt→ltb 0 (suc (r.buffer_size - 2)) (omega arith)

  -- At the end of the file, with no character behind the line, the next call reports the end.
  pub read_line_no_more :
      f.eof ≡ true
      → r.buffer_fill ≤ r.search_pos
      → read_line binary alloc false r f ≡ (end_reached, reset r, f)
  unfolding read_line
  read_line_no_more e h = rw (e, le→leb _ _ h)
