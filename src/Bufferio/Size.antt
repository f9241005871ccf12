-- ===== src/Bufferio/Size.antt =====
-- read_line never makes the buffer smaller.
use rrep.Base.{ℕ, zero, suc, ◌+◌, ◌-◌, ◌≤◌, Bool, not, ◌&&◌, arith, leb, ltb, length, if_both}
use rrep.Bufferio.{
  File, Reader, ReadOut, init_buffer_size, scan, refill, grow, finish_line, check_read, first_fill,
  advance, search, read_line,
}

-- The buffer has at least this size.
abbrev pub AtLeast : ℕ → ReadOut → Type 0
AtLeast n x = n ≤ x.1.buffer_size

check_read-AtLeast :
    (n : ℕ) (continue : Reader × File → ReadOut) (x : Reader × File)
    → n ≤ x.0.buffer_size
    → AtLeast n (continue x)
    → AtLeast n (check_read continue x)
check_read-AtLeast n continue (r, f) h k = if_both (AtLeast n) f.error (λ _. h) (λ _. k)

module _ (binary : Bool) (alloc : ℕ → Bool) (n : ℕ) where
  search-AtLeast :
      (fuel : ℕ) (r : Reader) (f : File)
      → n ≤ r.buffer_size
      → AtLeast n (search binary alloc fuel (r, f))
  unfolding search refill grow finish_line
  search-AtLeast zero r f h = h
  search-AtLeast (suc fuel) r f h =
      if_both (AtLeast n) (leb r.buffer_fill pos && not f.eof)
        (λ _.
          if_both (AtLeast n) (ltb 0 r.start)
            (λ _.
              check_read-AtLeast n (search binary alloc fuel) (refill r' f) h
                (search-AtLeast fuel (refill r' f).0 (refill r' f).1 h))
            (λ _.
              if_both (AtLeast n) (alloc (r.buffer_size + init_buffer_size))
                (λ _.
                  check_read-AtLeast n (search binary alloc fuel) (grow r' f) larger
                    (search-AtLeast fuel (grow r' f).0 (grow r' f).1 larger))
                (λ _. h)))
        (λ _. h)
    where
      pos : ℕ
      pos = scan (r.buffer_fill - r.search_pos) binary r.buffer r.search_pos

      r' : Reader
      r' = record r { search_pos = pos }

      larger : n ≤ r.buffer_size + init_buffer_size
      larger = omega arith

  pub read_line-AtLeast :
      (fresh : Bool) (r : Reader) (f : File)
      → n ≤ r.buffer_size
      → AtLeast n (read_line binary alloc fresh r f)
  unfolding read_line first_fill advance
  read_line-AtLeast fresh r f h =
      if_both (AtLeast n) fresh
        (λ _.
          check_read-AtLeast n (search binary alloc (length f.rest + 2)) (first_fill r f) h
            (search-AtLeast (length f.rest + 2) (first_fill r f).0 (first_fill r f).1 h))
        (λ _.
          if_both (AtLeast n) (f.eof && leb r.buffer_fill r.search_pos) (λ _. h)
            (λ _. search-AtLeast (length f.rest + 2) (advance r) f h))
