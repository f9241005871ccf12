-- ===== src/Walk/View.antt =====
-- What a call in the working directory does to the files.
use rrep.Base.{
  ◌≡◌, refl, ap, ◌∙◌, true, [], ◌∷◌, ◌++◌, ◌==◌, ==→eq, length, drop, Bool-cases, inl, inr,
}
use rrep.Pattern.{is_prefix}
use rrep.World.{Name, Files, World, Exit}
use rrep.Walk.{Walk, prefix, put_back, in_cwd, seen}

is_prefix-append-drop : (p path : Name) → is_prefix p path ≡ true → p ++ drop (length p) path ≡ path
unfolding is_prefix
is_prefix-append-drop [] path h = refl
is_prefix-append-drop (c ∷ p) [] h = absurd cc
is_prefix-append-drop (c ∷ p) (d ∷ path) h = elim (Bool-cases (c == d)) [
  | inr e ↦ absurd (let q = (rw e at h) in cc)
  | inl e ↦ rw (==→eq c d e, is_prefix-append-drop p path (rw e at h))
]

-- A path whose file in the working directory, where it has one, is as before keeps its file.
put_back_same :
    (p : Name) (here files : Files) (path : Name)
    → ((name : Name) → p ++ name ≡ path → here name ≡ files (p ++ name))
    → put_back p here files path ≡ files path
unfolding put_back
put_back_same p here files path h = elim (Bool-cases (is_prefix p path)) [
  | inr e ↦ rw e
  | inl e ↦
      let whole = is_prefix-append-drop p path e in
      rw e (h (drop (length p) path) whole ∙ ap files whole)
]

pub in_cwd_kept :
    (call : World → Exit × World) (s : Walk) (path : Name)
    → ((name : Name)
        → prefix s.cwd ++ name ≡ path
        → (call (seen s)).1.files name ≡ (seen s).files name)
    → (in_cwd call s).1.world.files path ≡ s.world.files path
unfolding in_cwd
in_cwd_kept call s path h =
    put_back_same (prefix s.cwd) (call (seen s)).1.files s.world.files path h

pub in_cwd_same :
    (call : World → Exit × World) (s : Walk) (path : Name)
    → ((w : World) → (call w).1.files ≡ w.files)
    → (in_cwd call s).1.world.files path ≡ s.world.files path
in_cwd_same call s path h =
    in_cwd_kept call s path (λ name e. ap (λ files. files name) (h (seen s)))
