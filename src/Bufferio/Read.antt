-- ===== src/Bufferio/Read.antt =====
-- read_line: the loop, from any state of its invariant, ends with the first line of the content.
use native.Mathlib.Decide.{dec_lt}
use rrep.Base.{
  ℕ, zero, suc, ◌+◌, ◌-◌, ◌≤◌, ◌<◌, ◌≡◌, refl, sym, ◌∙◌, Bool, true, false, not, ◌&&◌, List, arith,
  if◌then◌else◌, ltb, leb, Bool-cases, ltb→lt, ltb→ge, inl, inr, length,
}
use rrep.Bufferio.{
  File, Reader, init_buffer_size, delimits, success, end_reached, failure, out_of_fuel, ReadOut,
  scan, refill, grow, finish_line, check_read, fail_read, search,
}
use rrep.Messages.{read_file, realloc_buffer}
use rrep.Bufferio.Scan.{scan-Stops}
use rrep.Bufferio.Search.{Searching, content, Delivers, finish_line-Delivers}
use rrep.Bufferio.Refill.{
  Exhausted, Continues, grow-Continues, refill-Continues, fail_read-Delivers, refill_file,
  grow_file,
}

-- What is delivered from one state is delivered from another one of the same content.
pub Delivers-from :
    (binary : Bool) (alloc : ℕ → Bool) {bytes bytes' : List ℕ} (f f' : File) (out : ReadOut)
    → bytes' ≡ bytes
    → f'.closes ≡ f.closes
    → f'.bad ≡ f.bad
    → length f'.rest ≤ length f.rest
    → Delivers binary alloc bytes' f' out
    → Delivers binary alloc bytes f out
Delivers-from binary alloc g g' (success s n, r, f) same closes bad less (e, ready, c, b, l, p) =
    (rw (← same) e, ready, c ∙ closes, b ∙ bad, omega arith, p)
Delivers-from binary alloc g g' (end_reached, r, f) same closes bad less h = h
Delivers-from binary alloc g g' (failure e, r, f) same closes bad less (c, inl (q, b)) =
    (omega arith, inl (q, sym bad ∙ b))
Delivers-from binary alloc g g' (failure e, r, f) same closes bad less (c, inr w) =
    (omega arith, inr w)
Delivers-from binary alloc g g' (out_of_fuel, r, f) same closes bad less h = h

abbrev scanned : Bool → Reader → Reader
scanned binary r = record r {
  search_pos = scan (r.buffer_fill - r.search_pos) binary r.buffer r.search_pos;
}

scanned-Searching :
    (binary : Bool) (r : Reader) (f : File)
    → Searching binary r f
    → Searching binary (scanned binary r) f
      × ((scanned binary r).search_pos < r.buffer_fill
          → delimits binary (r.buffer ((scanned binary r).search_pos - 1)) ≡ true)
scanned-Searching binary r f v =
    let s =
      scan-Stops (r.buffer_fill - r.search_pos) binary r.buffer r.search_pos
        (omega (arith, v.line_start)) in
    (
      record {
        line_start = omega (arith, v.line_start, s.after);
        in_fill = omega (arith, s.within, v.in_fill);
        in_buffer = v.in_buffer;
        no_error = v.no_error;
        full = v.full;
        ended = v.ended;
        plain = λ k a b. elim (dec_lt (suc k) r.search_pos) [
          | yes c ↦ v.plain k a c
          | no c ↦ s.plain k (omega arith) b
        ];
      },
      λ h. s.found (omega (arith, v.in_fill)),
    )

module _ (binary : Bool) (alloc : ℕ → Bool) (fuel : ℕ) (r : Reader) (f : File) where
  search_stops :
      (leb r.buffer_fill (scanned binary r).search_pos && not f.eof) ≡ false
      → search binary alloc (suc fuel) (r, f) ≡ finish_line (scanned binary r) f
  unfolding search
  search_stops h = rw h

  search_refills :
      (leb r.buffer_fill (scanned binary r).search_pos && not f.eof) ≡ true
      → ltb 0 r.start ≡ true
      → search binary alloc (suc fuel) (r, f)
        ≡ check_read (search binary alloc fuel) (refill (scanned binary r) f)
  unfolding search
  search_refills h z = rw (h, z)

  search_grows :
      (leb r.buffer_fill (scanned binary r).search_pos && not f.eof) ≡ true
      → ltb 0 r.start ≡ false
      → search binary alloc (suc fuel) (r, f) ≡ (
          if alloc (r.buffer_size + init_buffer_size)
          then check_read (search binary alloc fuel) (grow (scanned binary r) f)
          else fail_read realloc_buffer (scanned binary r) f)
  unfolding search
  search_grows h z = rw (h, z)

  pub check_read_stops :
      (continue : Reader × File → ReadOut) (r' : Reader) (f' : File)
      → f'.error ≡ true
      → check_read continue (r', f') ≡ fail_read read_file r' f'
  check_read_stops continue r' f' h = rw h

  pub check_read_goes :
      (continue : Reader × File → ReadOut) (r' : Reader) (f' : File)
      → f'.error ≡ false
      → check_read continue (r', f') ≡ continue (r', f')
  check_read_goes continue r' f' h = rw h

  -- A read that met no error continues, the other one fails and closes the stream.
  check_read-Delivers :
      (continue : Reader × File → ReadOut) (r' : Reader) (f' : File)
      → f'.closes ≡ f.closes
      → (f'.error ≡ true → f.bad ≡ true)
      → (f'.error ≡ false → Continues binary r f r' f')
      → (f'.error ≡ false
          → Continues binary r f r' f'
          → Delivers binary alloc (content r' f') f' (continue (r', f')))
      → Delivers binary alloc (content r f) f (check_read continue (r', f'))
  check_read-Delivers continue r' f' c b k d = elim (Bool-cases f'.error) [
    | inl h ↦
        rw (check_read_stops continue r' f' h)
          (fail_read-Delivers binary alloc (content r f) r' f f' c (b h))
    | inr h ↦ rw (check_read_goes continue r' f' h) (
        Delivers-from binary alloc f f' (continue (r', f')) (k h).same (k h).closes (k h).bad
          (k h).less (d h (k h)))
  ]

-- The loop with one round less to go delivers from every state of its invariant.
abbrev LoopDelivers : Bool → (ℕ → Bool) → ℕ → Type 0
LoopDelivers binary alloc fuel =
    (r : Reader) (f : File)
    → Searching binary r f
    → 0 < fuel
    → (f.eof ≡ false → length f.rest + 1 < fuel)
    → Delivers binary alloc (content r f) f (search binary alloc fuel (r, f))

module _ (binary : Bool) (alloc : ℕ → Bool) (fuel : ℕ) (ih : LoopDelivers binary alloc fuel)
    (r : Reader) (f : File) (x : Exhausted binary r f) (enough : length f.rest < fuel) where
  after_read :
      (r' : Reader) (f' : File)
      → Continues binary r f r' f'
      → Delivers binary alloc (content r' f') f' (search binary alloc fuel (r', f'))
  after_read r' f' k = ih r' f' k.inv (omega arith) (λ e. omega (arith, k.progress e))

  refill_round :
      0 < r.start
      → Delivers binary alloc (content r f) f (check_read (search binary alloc fuel) (refill r f))
  refill_round z =
      let m = refill_file r f x.inv.no_error in
      check_read-Delivers binary alloc fuel r f (search binary alloc fuel) (refill r f).0
        (refill r f).1 m.0 m.1 (refill-Continues binary r f x z) (λ h k. after_read _ _ k)

  grow_round :
      r.start ≡ 0
      → Delivers binary alloc (content r f) f (
          if alloc (r.buffer_size + init_buffer_size)
          then check_read (search binary alloc fuel) (grow r f)
          else fail_read realloc_buffer r f)
  unfolding grow
  grow_round z =
      let m = grow_file r f x.inv.no_error in
      elim (Bool-cases (alloc (r.buffer_size + init_buffer_size))) [
        | inl a ↦ rw a (
            check_read-Delivers binary alloc fuel r f (search binary alloc fuel) (grow r f).0
              (grow r f).1 m.0 m.1 (grow-Continues binary r f x z) (λ h k. after_read _ _ k))
        | inr a ↦ rw a (refl, inr (refl, (_, a)))
      ]

-- One round: it ends the line, refills or grows.
round-Delivers :
    (binary : Bool) (alloc : ℕ → Bool) (fuel : ℕ)
    → LoopDelivers binary alloc fuel
    → LoopDelivers binary alloc (suc fuel)
round-Delivers binary alloc fuel ih r f v pos enough =
    let (w, found) = scanned-Searching binary r f v in
    elim (Bool-cases (leb r.buffer_fill (scanned binary r).search_pos && not f.eof)) [
      | inr stop ↦
          rw (search_stops binary alloc fuel r f stop)
            (finish_line-Delivers binary alloc (scanned binary r) f w (λ e. ground arith) found)
      | inl go ↦
          let x : Exhausted binary (scanned binary r) f = record {
            inv = w;
            at_end = ground (arith, w.in_fill);
            more = ground arith;
          } in
          let left : length f.rest < fuel = omega (arith, enough x.more) in
          elim (Bool-cases (ltb 0 r.start)) [
            | inl z ↦
                rw (search_refills binary alloc fuel r f go z) (
                  refill_round binary alloc fuel ih (scanned binary r) f x left
                    (ltb→lt 0 r.start z))
            | inr z ↦ rw (search_grows binary alloc fuel r f go z) (
                grow_round binary alloc fuel ih (scanned binary r) f x left
                  (omega (arith, ltb→ge 0 r.start z)))
          ]
    ]

-- From the invariant and with fuel for each byte of the file the loop delivers the first line.
pub search-Delivers : (binary : Bool) (alloc : ℕ → Bool) (fuel : ℕ) → LoopDelivers binary alloc fuel
search-Delivers binary alloc zero r f v pos enough = absurd (omega arith)
search-Delivers binary alloc (suc fuel) r f v pos enough =
    round-Delivers binary alloc fuel (search-Delivers binary alloc fuel) r f v pos enough
