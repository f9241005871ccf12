-- ===== src/Bufferio/Calls.antt =====
-- The calls of read_line: the first one on a file, the next ones, and the first one on an empty file.
use native.Mathlib.Decide.{dec_lt}
use rrep.Base.{
  ◌∷◌, suc, lt→ltb, ℕ, ◌+◌, ◌-◌, ◌≤◌, ◌<◌, ◌≡◌, ◌≢◌, refl, ap, Bool, true, false, ◌&&◌, [], arith,
  leb, Bool-cases, le→leb, inl, inr, length, length-take, length-drop, length-append,
}
use rrep.Bufferio.{
  File, Reader, success, opened, end_reached, ReadOut, search, finish_line, scan, first_fill,
  advance, read_line, reset,
}
use rrep.Bufferio.Search.{Searching, content, Delivers, Ready, pending}
use rrep.Bufferio.Refill.{fail_read-Delivers, error_bad, Fread-fread_file, refilled}
use rrep.Bufferio.Memory.{update, window, length-window, store_all}
use rrep.Bufferio.Read.{search-Delivers, Delivers-from, check_read_stops, check_read_goes}

-- A stream at its start whose file is not empty.
pub record Fresh (f : File) : Type 0 where
  pub some_bytes : 0 < length f.rest
  pub not_eof : f.eof ≡ false
  pub no_error : f.error ≡ false

module _ (binary : Bool) (r : Reader) (f : File) (big : 2 ≤ r.buffer_size) (v : Fresh f) where
  first_fill-Searching :
      (first_fill r f).1.error ≡ false → Searching binary (first_fill r f).0 (first_fill r f).1
  unfolding first_fill
  first_fill-Searching h =
      let g = Fread-fread_file (r.buffer_size - 1) f v.not_eof h in
      record {
        line_start = omega arith;
        in_fill = omega (arith, v.some_bytes, length-take (r.buffer_size - 1) f.rest);
        in_buffer = omega (arith, g.within);
        no_error = h;
        full = λ q. omega (arith, g.full q);
        ended = g.ended;
        plain = λ k a b. absurd (omega arith);
      }

  content-first_fill : content (first_fill r f).0 (first_fill r f).1 ≡ f.rest
  unfolding first_fill window
  content-first_fill = refilled r.buffer 0 0 0 _ (r.buffer_size - 1) f (omega arith) (omega arith)

  first_fill_file :
      ((first_fill r f).1.closes ≡ f.closes)
      × ((first_fill r f).1.bad ≡ f.bad)
      × (length (first_fill r f).1.rest ≤ length f.rest)
      × ((first_fill r f).1.error ≡ true → f.bad ≡ true)
  unfolding first_fill
  first_fill_file = (
    refl,
    refl,
    omega (arith, length-drop (r.buffer_size - 1) f.rest),
    error_bad (r.buffer_size - 1) f v.no_error,
  )

-- What follows a line that reaches the end of the buffer at the end of the file: nothing.
pending_nil :
    (r : Reader) (f : File) → r.buffer_fill ≤ r.search_pos → f.rest ≡ [] → pending r f ≡ []
unfolding window
pending_nil r f h e = let z : r.buffer_fill - r.search_pos ≡ 0 = omega arith in rw (z, e)

-- Where bytes are pending, the line behind the current one has begun.
begun : (r : Reader) (f : File) → Ready r f → pending r f ≢ [] → r.search_pos < r.buffer_fill
begun r f v ne = elim (Bool-cases f.eof) [
  | inr e ↦ v.progress e
  | inl e ↦ elim (dec_lt r.search_pos r.buffer_fill) [
    | yes h ↦ h
    | no h ↦ absurd (ne (pending_nil r f (omega arith) (v.ended e)))
  ]
]

advance-Searching :
    (binary : Bool) (r : Reader) (f : File)
    → Ready r f
    → pending r f ≢ []
    → Searching binary (advance r) f
unfolding advance
advance-Searching binary r f v ne = record {
  line_start = omega arith;
  in_fill = omega (arith, begun r f v ne);
  in_buffer = v.in_buffer;
  no_error = v.no_error;
  full = v.full;
  ended = v.ended;
  plain = λ k a b. absurd (omega arith);
}

content-advance : (r : Reader) (f : File) → content (advance r) f ≡ pending r f
unfolding advance
content-advance r f = refl

not_ended_test :
    (r : Reader) (f : File)
    → r.search_pos < r.buffer_fill
    → (f.eof && leb r.buffer_fill r.search_pos) ≡ false
not_ended_test r f h = ground arith

-- Nothing is pending only when the file has ended.
ended_test :
    (r : Reader) (f : File)
    → Ready r f
    → pending r f ≡ []
    → (f.eof && leb r.buffer_fill r.search_pos) ≡ true
ended_test r f v e = elim (Bool-cases f.eof) [
  | inl h ↦ rw h (le→leb _ _ (omega (arith, empty)))
  | inr h ↦ absurd (omega (arith, v.progress h, empty))
]
  where
    empty : r.buffer_fill - r.search_pos ≡ 0
    empty = omega (
      arith,
      ap length e,
      length-append
          (window (update r.buffer r.search_pos r.null_replace) r.search_pos
            (r.buffer_fill - r.search_pos))
          f.rest,
      length-window (update r.buffer r.search_pos r.null_replace) r.search_pos
          (r.buffer_fill - r.search_pos),
    )

module _ (binary : Bool) (alloc : ℕ → Bool) (r : Reader) (f : File) where
  -- With a buffer of at least two bytes, on a file at its start that is not empty, the first call
  -- of read_line delivers the first line of the file and is ready for the next call; or it has
  -- failed, at a device error or a refused realloc, and has closed the stream.
  pub read_line_first :
      2 ≤ r.buffer_size → Fresh f → Delivers binary alloc f.rest f (read_line binary alloc true r f)
  unfolding read_line
  read_line_first big v = elim (Bool-cases f'.error) [
    | inl h ↦
        rw (check_read_stops binary alloc 0 r f continue r' f' h)
          (fail_read-Delivers binary alloc f.rest r' f f' (file.0) (file.3 h))
    | inr h ↦ rw (check_read_goes binary alloc 0 r f continue r' f' h) (
        Delivers-from binary alloc f f' (continue (r', f')) (content-first_fill binary r f big v)
          file.0 file.1 file.2
          (search-Delivers binary alloc (length f.rest + 2) r' f'
            (first_fill-Searching binary r f big v h) (omega arith) (λ e. omega (arith, file.2))))
  ]
    where
      r' : Reader
      r' = (first_fill r f).0

      f' : File
      f' = (first_fill r f).1

      continue : Reader × File → ReadOut
      continue = search binary alloc (length f.rest + 2)

      file :
          (f'.closes ≡ f.closes)
          × (f'.bad ≡ f.bad)
          × (length f'.rest ≤ length f.rest)
          × (f'.error ≡ true → f.bad ≡ true)
      file = first_fill_file binary r f big v

  -- Between two calls, where bytes are pending, read_line delivers the first line of them and is
  -- ready for the next call; or it has failed, at a device error or a refused realloc, and has
  -- closed the stream.
  pub read_line_next :
      Ready r f
      → pending r f ≢ []
      → Delivers binary alloc (pending r f) f (read_line binary alloc false r f)
  unfolding read_line
  read_line_next v ne = rw (not_ended_test r f (begun r f v ne)) (
      search-Delivers binary alloc (length f.rest + 2) (advance r) f
        (advance-Searching binary r f v ne) (omega arith) (λ e. omega arith))

  pub read_line_at_end :
      Ready r f → pending r f ≡ [] → read_line binary alloc false r f ≡ (end_reached, reset r, f)
  unfolding read_line
  read_line_at_end v e = rw (ended_test r f v e)

  -- Nothing is left to deliver, and the call has changed nothing but the static variables, which
  -- have the values that they had when the program was started.
  abbrev pub IsAtEnd : ReadOut → Type 0
  IsAtEnd out =
      (pending r f ≡ [])
      × (out.1.start ≡ 0)
      × (out.1.search_pos ≡ 1)
      × (out.1.buffer_fill ≡ 0)
      × (out.1.null_replace ≡ 0)
      × (out.1.buffer ≡ r.buffer)
      × (out.1.buffer_size ≡ r.buffer_size)
      × (out.2 ≡ f)

-- On an empty file, with a buffer of at least two bytes, the first call of read_line delivers a
-- line of one character that is in no file: the byte that the buffer held at its beginning.
pub read_line_empty :
    (binary : Bool) (alloc : ℕ → Bool) (r : Reader)
    → 2 ≤ r.buffer_size
    → let out = read_line binary alloc true r (opened [] false) in
      (out.0 ≡ success 0 1) × (window out.1.buffer 0 1 ≡ r.buffer 0 ∷ []) × (out.2.eof ≡ true)
unfolding read_line search finish_line scan window store_all
read_line_empty binary alloc r big =
    let e : r.buffer_size - 1 ≡ suc (r.buffer_size - 2) = omega arith in
    rw (e, lt→ltb 0 (suc (r.buffer_size - 2)) (omega arith)) (refl, refl, refl)
