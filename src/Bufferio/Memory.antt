-- ===== src/Bufferio/Memory.antt =====
-- Blocks of bytes: single writes, the copies that read_line makes, and what a stretch of a block
-- holds after them.
use mathlib.Core.Path.{ap₂}
use native.Mathlib.Nat.{add-zero, zero-add, le_refl}
use rrep.Base.{
  ℕ, zero, suc, ◌+◌, ◌<◌, ◌≤◌, ◌≡◌, refl, ◌⊎◌, List, [], ◌∷◌, ◌++◌, arith, ltb, ◌==◌, if◌then◌else◌,
  length, ap,
}

abbrev pub Block : Type 0
Block = ℕ → ℕ

abbrev pub update : Block → ℕ → ℕ → Block
update m i v j = if i == j then v else m j

-- The n bytes from index i on.
unfoldable pub window : Block → ℕ → ℕ → List ℕ
window m i zero = []
window m i (suc n) = m i ∷ window m (i + 1) n

-- fread into the block at an index.
unfoldable pub store_all : Block → ℕ → List ℕ → Block
store_all m i [] = m
store_all m i (x ∷ xs) = store_all (update m i x) (i + 1) xs

-- for (; n > 0; i++, n--) m[i] = m[start + i];
unfoldable pub move_down : ℕ → ℕ → ℕ → Block → Block
move_down zero i start m = m
move_down (suc n) i start m = move_down n (i + 1) start (update m i (m (start + i)))

-- The copy reads each byte before it overwrites it.
pub move_down_lem :
    (n i start : ℕ) (m : Block) (j : ℕ)
    → 0 < start
    → move_down n i start m j
      ≡ (if ltb j i then m j else if ltb j (i + n) then m (start + j) else m j)
unfolding move_down
move_down_lem zero i start m j h = ground arith
move_down_lem (suc n) i start m j h =
    ground (arith, move_down_lem n (i + 1) start (update m i (m (start + i))) j h)

pub length-window : (m : Block) (i n : ℕ) → length (window m i n) ≡ n
unfolding window
length-window m i zero = refl
length-window m i (suc n) = ap suc (length-window m (i + 1) n)

shift : (i k : ℕ) → i + 1 + k ≡ i + suc k
shift i k = omega arith

-- Two stretches agree if they agree at each index.
pub window_ext :
    (m m' : Block) (i i' n : ℕ)
    → ((k : ℕ) → k < n → m (i + k) ≡ m' (i' + k))
    → window m i n ≡ window m' i' n
unfolding window
window_ext m m' i i' zero h = refl
window_ext m m' i i' (suc n) h = ap₂ ◌∷◌ head (window_ext m m' (i + 1) (i' + 1) n tail)
  where
    head : m i ≡ m' i'
    head = rw (add-zero, add-zero) at (h 0 (omega arith))

    tail : (k : ℕ) → k < n → m (i + 1 + k) ≡ m' (i' + 1 + k)
    tail k lt = rw (shift i k, shift i' k) (h (suc k) (omega arith))

suc-add : (a b : ℕ) → suc a + b ≡ suc (a + b)
suc-add a b = omega arith

pub window-append :
    (m : Block) (i a b : ℕ) → window m i (a + b) ≡ window m i a ++ window m (i + a) b
unfolding window
window-append m i zero b = rw (add-zero, zero-add)
window-append m i (suc a) b =
    rw (suc-add a b, ← shift i a) (ap (λ t. m i ∷ t) (window-append m (i + 1) a b))

pub store_all_lt : (m : Block) (i : ℕ) (xs : List ℕ) (j : ℕ) → j < i → store_all m i xs j ≡ m j
unfolding store_all
store_all_lt m i [] j h = refl
store_all_lt m i (x ∷ xs) j h = ground (arith, store_all_lt (update m i x) (i + 1) xs j)

pub window-store_all :
    (m : Block) (i : ℕ) (xs : List ℕ) → window (store_all m i xs) i (length xs) ≡ xs
unfolding window store_all
window-store_all m i [] = refl
window-store_all m i (x ∷ xs) =
    ground
      (arith, store_all_lt (update m i x) (i + 1) xs i, window-store_all (update m i x) (i + 1) xs)

pub window-store_prefix :
    (m : Block) (i : ℕ) (xs ys : List ℕ) → window (store_all m i (xs ++ ys)) i (length xs) ≡ xs
unfolding window store_all
window-store_prefix m i [] ys = refl
window-store_prefix m i (x ∷ xs) ys = ground (
  arith,
  store_all_lt (update m i x) (i + 1) (xs ++ ys) i,
  window-store_prefix (update m i x) (i + 1) xs ys,
)

pub window-update_out :
    (m : Block) (j v i n : ℕ) → (j < i) ⊎ (i + n ≤ j) → window (update m j v) i n ≡ window m i n
window-update_out m j v i n out = window_ext (update m j v) m i i n (λ k lt. ground arith)

-- After the copy the stretch from `start` on stands at the beginning.
pub window-move_down :
    (n start : ℕ) (m : Block) → 0 < start → window (move_down n 0 start m) 0 n ≡ window m start n
window-move_down n start m h =
    window_ext (move_down n 0 start m) m 0 start n
      (λ k lt. ground (arith, move_down_lem n 0 start m (0 + k) h))

pub window-store_all_lt :
    (m : Block) (i : ℕ) (xs : List ℕ) (a n : ℕ)
    → a + n ≤ i
    → window (store_all m i xs) a n ≡ window m a n
window-store_all_lt m i xs a n h =
    window_ext (store_all m i xs) m a a n (λ k lt. store_all_lt m i xs (a + k) (omega arith))

-- What is read to an index continues the stretch before it.
pub window-store_all_onto :
    (m : Block) (i n : ℕ) (xs : List ℕ)
    → window (store_all m (i + n) xs) i (n + length xs) ≡ window m i n ++ xs
window-store_all_onto m i n xs = rw (
  window-append (store_all m (i + n) xs) i n (length xs),
  window-store_all_lt m (i + n) xs i n (le_refl (i + n)),
  window-store_all m (i + n) xs,
)
