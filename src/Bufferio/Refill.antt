-- ===== src/Bufferio/Refill.antt =====
-- The rounds of the loop of read_line that read more: they keep its invariant and the content, and
-- the loop ends with the first line.
use rrep.Base.{
  ℕ, ◌+◌, ◌-◌, ◌≤◌, ◌<◌, ◌≡◌, refl, ap, ◌∙◌, Bool, true, false, List, [], ◌++◌, append_assoc, arith,
  inl, length, take-append-drop, length-take, length-drop, drop_all,
}
use rrep.Bufferio.{
  File, fread_bytes, fread_file, Reader, init_buffer_size, delimits, refill, grow, fail_read,
}
use rrep.Messages.{read_file}
use rrep.Bufferio.Search.{Searching, content, Delivers}
use rrep.Bufferio.Memory.{
  Block, window, window-store_all_onto, window-move_down, move_down, store_all, store_all_lt,
  move_down_lem,
}

-- What a read of n bytes that met no error leaves.
pub record Fread (n : ℕ) (f : File) : Type 0 where
  pub within : length (fread_bytes n f) ≤ n
  pub full : (fread_file n f).eof ≡ false → length (fread_bytes n f) ≡ n
  pub ended : (fread_file n f).eof ≡ true → (fread_file n f).rest ≡ []
  pub less : length (fread_file n f).rest + length (fread_bytes n f) ≡ length f.rest

pub Fread-fread_file :
    (n : ℕ) (f : File) → f.eof ≡ false → (fread_file n f).error ≡ false → Fread n f
Fread-fread_file n f e h = record {
  within = omega (arith, length-take n f.rest);
  full = λ q. ground (arith, length-take n f.rest);
  ended = λ q. drop_all n f.rest (ground arith);
  less = omega (arith, length-take n f.rest, length-drop n f.rest);
}

-- The loop reads only when the scan has come to the end of a full buffer.
pub record Exhausted (binary : Bool) (r : Reader) (f : File) : Type 0 where
  pub inv : Searching binary r f
  pub at_end : r.search_pos ≡ r.buffer_fill
  pub more : f.eof ≡ false

-- What a round that reads has to keep.
pub record Continues (binary : Bool) (r : Reader) (f : File) (r' : Reader) (f' : File)
    : Type 0 where
  pub inv : Searching binary r' f'
  pub same : content r' f' ≡ content r f
  pub closes : f'.closes ≡ f.closes
  pub bad : f'.bad ≡ f.bad
  pub less : length f'.rest ≤ length f.rest
  pub progress : f'.eof ≡ false → length f'.rest < length f.rest

-- Bytes read behind a stretch and the bytes still in the file are what the file had left.
pub refilled :
    (m : Block) (i n p t k : ℕ) (f : File)
    → i + n ≡ p
    → t ≡ n + length (fread_bytes k f)
    → window (store_all m p (fread_bytes k f)) i t ++ (fread_file k f).rest ≡ window m i n ++ f.rest
refilled m i n p t k f e q =
    rw (← e, q, window-store_all_onto m i n (fread_bytes k f))
      (append_assoc (window m i n) _ _ ∙ ap (λ xs. window m i n ++ xs) (take-append-drop k f.rest))

pub grow-Continues :
    (binary : Bool) (r : Reader) (f : File)
    → Exhausted binary r f
    → r.start ≡ 0
    → (fread_file init_buffer_size f).error ≡ false
    → Continues binary r f (grow r f).0 (grow r f).1
unfolding grow
grow-Continues binary r f x z h =
    let v = x.inv in
    let g = Fread-fread_file init_buffer_size f x.more h in
    record {
      inv = record {
        line_start = v.line_start;
        in_fill = omega (arith, v.in_fill);
        in_buffer = omega (arith, g.within, v.in_buffer);
        no_error = h;
        full = λ q. omega (arith, g.full q, v.full x.more);
        ended = g.ended;
        plain = λ k a b.
            rw (store_all_lt r.buffer r.search_pos (fread_bytes init_buffer_size f) k (omega arith))
              (v.plain k a b);
      };
      same =
          refilled r.buffer r.start (r.buffer_fill - r.start) r.search_pos _ init_buffer_size f
            (omega (arith, x.at_end, v.line_start)) (omega (arith, x.at_end, v.line_start));
      closes = refl;
      bad = refl;
      less = omega (arith, g.less);
      progress = λ q. omega (arith, g.less, g.full q);
    }

-- A character of the moved line is the one that it was.
moved_plain :
    (binary : Bool) (r : Reader) (k : ℕ)
    → k < r.buffer_fill - r.start
    → 0 < r.start
    → delimits binary (r.buffer (r.start + k)) ≡ false
    → delimits binary (move_down (r.buffer_fill - r.start) 0 r.start r.buffer k) ≡ false
moved_plain binary r k h z p =
    let e : move_down (r.buffer_fill - r.start) 0 r.start r.buffer k ≡ r.buffer (r.start + k) =
      ground (arith, move_down_lem (r.buffer_fill - r.start) 0 r.start r.buffer k z) in
    rw e p

pub refill-Continues :
    (binary : Bool) (r : Reader) (f : File)
    → Exhausted binary r f
    → 0 < r.start
    → (refill r f).1.error ≡ false
    → Continues binary r f (refill r f).0 (refill r f).1
unfolding refill
refill-Continues binary r f x z h =
    let v = x.inv in
    let room : ℕ = r.buffer_size - (r.search_pos - r.start) - 1 in
    let g = Fread-fread_file room f x.more h in
    let moved : Block = move_down (r.buffer_fill - r.start) 0 r.start r.buffer in
    let room_is : room ≡ r.start = omega (arith, v.full x.more, x.at_end, v.line_start) in
    record {
      inv = record {
        line_start = omega (arith, v.line_start);
        in_fill = omega (arith, v.in_fill);
        in_buffer = omega (arith, g.within, v.in_buffer, room_is);
        no_error = h;
        full = λ q. omega (arith, g.full q, v.full x.more, room_is, x.at_end);
        ended = g.ended;
        plain = λ k a b.
            rw (store_all_lt moved (r.search_pos - r.start) (fread_bytes room f) k (omega arith)) (
              moved_plain binary r k (omega (arith, x.at_end)) z
                (v.plain (r.start + k) (omega arith) (omega arith)));
      };
      same =
          refilled moved 0 (r.buffer_fill - r.start) (r.search_pos - r.start) _ room f
            (omega (arith, x.at_end)) (omega (arith, x.at_end, v.line_start))
          ∙ ap (λ xs. xs ++ f.rest) (window-move_down (r.buffer_fill - r.start) r.start r.buffer z);
      closes = refl;
      bad = refl;
      less = omega (arith, g.less);
      progress = λ q. omega (arith, g.less, g.full q, room_is);
    }

pub fail_read-Delivers :
    (binary : Bool) (alloc : ℕ → Bool) (bytes : List ℕ) (r : Reader) (f₀ f : File)
    → f.closes ≡ f₀.closes
    → f₀.bad ≡ true
    → Delivers binary alloc bytes f₀ (fail_read read_file r f)
fail_read-Delivers binary alloc bytes r f₀ f c b = (omega arith, inl (refl, b))

-- An error of the stream comes from the device.
pub error_bad : (n : ℕ) (f : File) → f.error ≡ false → (fread_file n f).error ≡ true → f.bad ≡ true
error_bad n f e h = ground arith

-- A round that reads closes nothing, and meets an error only at a device that has one.
pub refill_file :
    (r : Reader) (f : File)
    → f.error ≡ false
    → ((refill r f).1.closes ≡ f.closes) × ((refill r f).1.error ≡ true → f.bad ≡ true)
unfolding refill
refill_file r f e = (refl, error_bad (r.buffer_size - (r.search_pos - r.start) - 1) f e)

pub grow_file :
    (r : Reader) (f : File)
    → f.error ≡ false
    → ((grow r f).1.closes ≡ f.closes) × ((grow r f).1.error ≡ true → f.bad ≡ true)
unfolding grow
grow_file r f e = (refl, error_bad init_buffer_size f e)
