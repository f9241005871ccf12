-- ===== src/Replace/Write.antt =====
-- What write_string and write_replacement append to the output, inside the memory of file_buffer.
use rrep.Base.{
  ℕ, zero, suc, ◌+◌, ◌-◌, ◌≡◌, ◌≤◌, ◌<◌, refl, inl, inr, Bool, true, false, List, ◌++◌, [], sym,
  append-nil, arith, ltb, Bool-cases, if◌then◌else◌, append_assoc, length, length-append, ltb→lt,
  ltb→ge,
}
use rrep.Bufferio.{init_buffer_size}
use rrep.Replace.{
  Sink, stream, buffered, written, Wrote, make_room, write_string, and_then, LineEnd, flushed,
  write_failed, regex_failed, out_of_rounds,
}

-- realloc has refused some size.
abbrev pub Refused : (ℕ → Bool) → Type 0
Refused alloc = (n : ℕ) × (alloc n ≡ false)

-- What is written to file_buffer lies inside it.
abbrev pub InSize : Sink → Type 0
InSize (stream bytes) = Unit
InSize (buffered size bytes) = length bytes ≤ size

module _ (alloc : ℕ → Bool) where
  -- The operation has appended the text, or failed because realloc refused; file_buffer holds it.
  pub record Emits (sink : Sink) (text : List ℕ) (w : Wrote) : Type 0 where
    pub appended : w.1 ≡ false → written w.0 ≡ written sink ++ text
    pub refused : w.1 ≡ true → Refused alloc
    pub in_size : InSize sink → InSize w.0

  -- Nothing is written.
  pub nothing-Emits : (sink : Sink) → Emits sink [] (sink, false)
  nothing-Emits sink = record {
    appended = λ z. sym (append-nil (written sink));
    refused = λ z. cc;
    in_size = λ v. v;
  }

  make_room_done :
      (fuel size pos len : ℕ)
      → ltb (size - pos) len ≡ false
      → make_room alloc (suc fuel) size pos len ≡ (size, false)
  unfolding make_room
  make_room_done fuel size pos len h = rw (h, make_room)

  make_room_refused :
      (fuel size pos len : ℕ)
      → ltb (size - pos) len ≡ true
      → alloc (size + init_buffer_size) ≡ false
      → make_room alloc (suc fuel) size pos len ≡ (size, true)
  unfolding make_room
  make_room_refused fuel size pos len h a = rw (h, a, make_room)

  make_room_more :
      (fuel size pos len : ℕ)
      → ltb (size - pos) len ≡ true
      → alloc (size + init_buffer_size) ≡ true
      → make_room alloc (suc fuel) size pos len
        ≡ make_room alloc fuel (size + init_buffer_size) pos len
  unfolding make_room
  make_room_more fuel size pos len h a = rw (h, a, make_room)

  -- A size at which the text fits, or a refusal. The size is never smaller than before.
  abbrev HasRoom : ℕ → ℕ → ℕ × Bool → Type 0
  HasRoom pos len (size, true) = Refused alloc × (pos ≤ size)
  HasRoom pos len (size, false) = pos + len ≤ size

  -- The loop stops at a size with enough room, unless realloc refuses.
  make_room-HasRoom :
      (fuel size pos len : ℕ)
      → pos ≤ size
      → 0 < fuel
      → len < fuel + (size - pos)
      → HasRoom pos len (make_room alloc fuel size pos len)
  make_room-HasRoom zero size pos len h f k = absurd (omega arith)
  make_room-HasRoom (suc fuel) size pos len h f k = elim (Bool-cases (ltb (size - pos) len)) [
    | inr t ↦ rw (make_room_done fuel size pos len t) (omega (arith, ltb→ge (size - pos) len t))
    | inl t ↦ elim (Bool-cases (alloc (size + init_buffer_size))) [
      | inr a ↦ rw (make_room_refused fuel size pos len t a) ((_, a), h)
      | inl a ↦
          let lt = ltb→lt (size - pos) len t in
          rw (make_room_more fuel size pos len t a) (
            make_room-HasRoom fuel (size + init_buffer_size) pos len (omega arith) (omega arith)
              (omega arith))
    ]
  ]

  buffer_written : List ℕ → List ℕ → ℕ × Bool → Wrote
  buffer_written bytes text (size, failed) =
      (buffered size (if failed then bytes else bytes ++ text), failed)

  buffer_written-Emits :
      (size : ℕ) (bytes text : List ℕ) (room : ℕ × Bool)
      → HasRoom (length bytes) (length text) room
      → Emits (buffered size bytes) text (buffer_written bytes text room)
  unfolding buffer_written
  buffer_written-Emits size bytes text (size', true) (h, le) = record {
    appended = λ e. cc;
    refused = λ e. h;
    in_size = λ v. le;
  }
  buffer_written-Emits size bytes text (size', false) h = record {
    appended = λ e. refl;
    refused = λ e. cc;
    in_size = λ v. omega (arith, length-append bytes text);
  }

  write_buffer_eq :
      (size : ℕ) (bytes text : List ℕ)
      → write_string alloc (buffered size bytes) text
        ≡ buffer_written bytes text
            (make_room alloc (length text + 1) size (length bytes) (length text))
  unfolding write_string buffer_written
  write_buffer_eq size bytes text = refl

  -- With an output inside its memory, write_string appends the text, after it has enlarged
  -- file_buffer where it has to, and leaves the output inside its memory; it fails only if realloc
  -- refuses.
  pub write_string-Emits :
      (sink : Sink) (text : List ℕ) → InSize sink → Emits sink text (write_string alloc sink text)
  unfolding write_string
  write_string-Emits (stream bytes) text v = record {
    appended = λ e. refl;
    refused = λ e. cc;
    in_size = λ v. tt;
  }
  write_string-Emits (buffered size bytes) text v = rw (write_buffer_eq size bytes text) (
      buffer_written-Emits size bytes text _ (
        make_room-HasRoom (length text + 1) size (length bytes) (length text) v (omega arith)
          (omega arith)))

  -- How the work on a line ends when no regular expression fails: with the text behind the output,
  -- or at a refusal.
  abbrev pub EmitsLine : Sink → List ℕ → Sink × LineEnd → Type 0
  EmitsLine sink text (s, flushed) = (written s ≡ written sink ++ text) × InSize s
  EmitsLine sink text (s, write_failed) = Refused alloc
  EmitsLine sink text (s, regex_failed e) = ⊥
  EmitsLine sink text (s, out_of_rounds) = ⊥

  -- What was written before stands in front.
  pub EmitsLine-after :
      (sink s : Sink) (a b : List ℕ) (out : Sink × LineEnd)
      → written s ≡ written sink ++ a
      → EmitsLine s b out
      → EmitsLine sink (a ++ b) out
  EmitsLine-after sink s a b (t, flushed) e (h, v) =
      (rw (h, e) (append_assoc (written sink) a b), v)
  EmitsLine-after sink s a b (t, write_failed) e h = h
  EmitsLine-after sink s a b (t, regex_failed x) e h = h
  EmitsLine-after sink s a b (t, out_of_rounds) e h = h

  pub and_then_failed :
      (w : Wrote) (k : Sink → Sink × LineEnd) → w.1 ≡ true → and_then w k ≡ (w.0, write_failed)
  and_then_failed w k h = rw h

  pub and_then_goes : (w : Wrote) (k : Sink → Sink × LineEnd) → w.1 ≡ false → and_then w k ≡ k w.0
  and_then_goes w k h = rw h

  -- A write and what follows it.
  pub and_then-EmitsLine :
      (sink : Sink) (a b : List ℕ) (w : Wrote) (k : Sink → Sink × LineEnd)
      → InSize sink
      → Emits sink a w
      → ((s : Sink) → InSize s → EmitsLine s b (k s))
      → EmitsLine sink (a ++ b) (and_then w k)
  and_then-EmitsLine sink a b w k v e h = elim (Bool-cases w.1) [
    | inl f ↦ rw (and_then_failed w k f) (e.refused f)
    | inr f ↦
        rw (and_then_goes w k f)
          (EmitsLine-after sink w.0 a b (k w.0) (e.appended f) (h w.0 (e.in_size v)))
  ]
