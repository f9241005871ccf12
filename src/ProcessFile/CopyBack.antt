-- ===== src/ProcessFile/CopyBack.antt =====
-- The copy of the temporary stream back to the file.
use rrep.Base.{
  ℕ, zero, suc, ◌+◌, ◌≡◌, ◌<◌, ◌≤◌, refl, ap, ◌∙◌, sym, ◌⊎◌, inl, inr, Bool, true, false, List, [],
  ◌++◌, arith, append-nil, append_assoc, length, length-append, Bool-cases, ltb, ltb→lt,
  take-append-drop,
}
use rrep.Messages.{read_temp, overwrite}
use rrep.Bufferio.{File, Reader, fread_file, fread_bytes}
use rrep.Bufferio.Memory.{store_all}
use rrep.Bufferio.Refill.{Fread-fread_file, error_bad}
use rrep.World.{CopyEnd, copied, copy_failed, copy_stuck}
use rrep.ProcessFile.{copy_back}

-- How the copy of the bytes ends: the file holds them, or the temporary stream could not be read, or
-- the device takes less.
abbrev pub Copies : ℕ → List ℕ → Bool → CopyEnd × Reader × List ℕ → Type 0
Copies room bytes bad (copied, r, out) = out ≡ bytes
Copies room bytes bad (copy_failed e, r, out) =
    ((e ≡ read_temp) × (bad ≡ true)) ⊎ ((e ≡ overwrite) × (room < length bytes))
Copies room bytes bad (copy_stuck, r, out) = ⊥

-- The last of four branches.
last_branch {ℓ} :
    {A : Type ℓ} (a b c : Bool) (w x y z : A)
    → a ≡ false
    → b ≡ false
    → c ≡ false
    → elim a [ true ↦ w | false ↦ elim b [ true ↦ x | false ↦ elim c [ true ↦ y | false ↦ z ] ] ]
      ≡ z
last_branch a b c w x y z h e t = rw (h, e, t)

module _ (room : ℕ) where
  -- The reader after a block has been read into the buffer.
  abbrev loaded : Reader → File → Reader
  loaded r tmp = record r { buffer = store_all r.buffer 0 (fread_bytes r.buffer_size tmp) }

  copy_back_stop :
      (fuel : ℕ) (r : Reader) (tmp : File) (out : List ℕ)
      → tmp.eof ≡ true
      → copy_back (suc fuel) room r tmp out ≡ (copied, r, out)
  unfolding copy_back
  copy_back_stop fuel r tmp out h = rw (h, copy_back)

  copy_back_bad :
      (fuel : ℕ) (r : Reader) (tmp : File) (out : List ℕ)
      → tmp.eof ≡ false
      → (fread_file r.buffer_size tmp).error ≡ true
      → copy_back (suc fuel) room r tmp out ≡ (copy_failed read_temp, loaded r tmp, out)
  unfolding copy_back
  copy_back_bad fuel r tmp out h e = rw (h, e, copy_back)

  copy_back_full :
      (fuel : ℕ) (r : Reader) (tmp : File) (out : List ℕ)
      → tmp.eof ≡ false
      → (fread_file r.buffer_size tmp).error ≡ false
      → ltb room (length (out ++ fread_bytes r.buffer_size tmp)) ≡ true
      → (copy_back (suc fuel) room r tmp out).0 ≡ copy_failed overwrite
  unfolding copy_back
  copy_back_full fuel r tmp out h e t = rw (h, e, t, copy_back)

  copy_back_next :
      (fuel : ℕ) (r : Reader) (tmp : File) (out : List ℕ)
      → tmp.eof ≡ false
      → (fread_file r.buffer_size tmp).error ≡ false
      → ltb room (length (out ++ fread_bytes r.buffer_size tmp)) ≡ false
      → copy_back (suc fuel) room r tmp out
        ≡ copy_back fuel room
            (loaded r tmp)
            (fread_file r.buffer_size tmp)
            (out ++ fread_bytes r.buffer_size tmp)
  unfolding copy_back
  copy_back_next fuel r tmp out h e t = last_branch _ _ _ _ _ _ _ h e t

  Copies-failed :
      (bytes : List ℕ) (bad : Bool) (x : CopyEnd × Reader × List ℕ)
      → x.0 ≡ copy_failed overwrite
      → room < length bytes
      → Copies room bytes bad x
  Copies-failed bytes bad (copied, r, out) e h = absurd cc
  Copies-failed bytes bad (copy_failed x, r, out) e h = inr (cc, h)
  Copies-failed bytes bad (copy_stuck, r, out) e h = absurd cc

  pub copy_back-Copies :
      (fuel : ℕ) (r : Reader) (tmp : File) (out : List ℕ)
      → 0 < r.buffer_size
      → tmp.error ≡ false
      → (tmp.eof ≡ true → tmp.rest ≡ [])
      → 0 < fuel
      → (tmp.eof ≡ false → length tmp.rest + 1 < fuel)
      → Copies room (out ++ tmp.rest) tmp.bad (copy_back fuel room r tmp out)
  copy_back-Copies zero r tmp out big ok ended pos enough = absurd (omega arith)
  copy_back-Copies (suc fuel) r tmp out big ok ended pos enough = elim (Bool-cases tmp.eof) [
    | inl h ↦ rw (copy_back_stop fuel r tmp out h, ended h) (sym (append-nil out))
    | inr h ↦ elim (Bool-cases (fread_file r.buffer_size tmp).error) [
      | inl e ↦ rw (copy_back_bad fuel r tmp out h e) (inl (refl, error_bad r.buffer_size tmp ok e))
      | inr e ↦ elim (Bool-cases (ltb room (length (out ++ fread_bytes r.buffer_size tmp)))) [
        | inl t ↦ Copies-failed (out ++ tmp.rest) tmp.bad _ (copy_back_full fuel r tmp out h e t) (
            omega (
              arith,
              ltb→lt room _ t,
              ap length whole,
              length-append (out ++ fread_bytes r.buffer_size tmp)
                  (fread_file r.buffer_size tmp).rest,
            ))
        | inr t ↦
            let g = Fread-fread_file r.buffer_size tmp h e in
            rw (copy_back_next fuel r tmp out h e t, ← whole)
              (copy_back-Copies fuel (loaded r tmp) (fread_file r.buffer_size tmp)
                (out ++ fread_bytes r.buffer_size tmp) big e g.ended (omega (arith, enough h))
                (λ q. omega (arith, enough h, g.full q, g.less)))
      ]
    ]
  ]
    where
      whole :
          (out ++ fread_bytes r.buffer_size tmp) ++ (fread_file r.buffer_size tmp).rest
          ≡ out ++ tmp.rest
      whole = append_assoc out _ _ ∙ ap (λ t. out ++ t) (take-append-drop r.buffer_size tmp.rest)

  -- The copy leaves the size of the buffer as it is.
  pub copy_back-Large :
      (n fuel : ℕ) (r : Reader) (tmp : File) (out : List ℕ)
      → n ≤ r.buffer_size
      → n ≤ (copy_back fuel room r tmp out).1.buffer_size
  unfolding copy_back
  copy_back-Large n zero r tmp out big = big
  copy_back-Large n (suc fuel) r tmp out big = elim (Bool-cases tmp.eof) [
    | inl h ↦ rw (h, copy_back) big
    | inr h ↦ elim (Bool-cases (fread_file r.buffer_size tmp).error) [
      | inl e ↦ rw (h, e, copy_back) big
      | inr e ↦ elim (Bool-cases (ltb room (length (out ++ fread_bytes r.buffer_size tmp)))) [
        | inl t ↦ rw (h, e, t, copy_back) big
        | inr t ↦ rw (copy_back_next fuel r tmp out h e t) (
            copy_back-Large n fuel (loaded r tmp) (fread_file r.buffer_size tmp)
              (out ++ fread_bytes r.buffer_size tmp) big)
      ]
    ]
  ]
