-- ===== src/ReadAhead/Bytes.antt =====
-- The bytes of a file, and of two buffers that are copied behind each other.
use gostream.Prelude.{
  ℕ, zero, suc, ◌+◌, ◌-◌, ◌≤◌, ◌≡◌, refl, ap, ap₂, ◌∙◌, List, [], ◌∷◌, ◌++◌, length, take, drop,
  length-append, length-drop, arith,
}
use mathlib.Core.List.{append-nil}
use gostream.Torrstor.Piece.{copied, copy_into}
use gostream.Torrstor.Piece.Bytes.{take-append, take_all}
use gostream.ReadAhead.{stitch}

-- The `n` bytes of a file from the offset `s` on.
unfoldable pub file_bytes : (ℕ → ℕ) → ℕ → ℕ → List ℕ
file_bytes f s zero = []
file_bytes f s (suc n) = f s ∷ file_bytes f (s + 1) n

pub length-file_bytes : (f : ℕ → ℕ) (s n : ℕ) → length (file_bytes f s n) ≡ n
unfolding file_bytes
length-file_bytes f s zero = refl
length-file_bytes f s (suc n) = omega (arith, length-file_bytes f (s + 1) n)

pub take-file_bytes : (f : ℕ → ℕ) (s n m : ℕ) → m ≤ n → take m (file_bytes f s n) ≡ file_bytes f s m
unfolding file_bytes
take-file_bytes f s n zero h = refl
take-file_bytes f s zero (suc m) h = absurd (omega arith)
take-file_bytes f s (suc n) (suc m) h =
    ap (λ t. f s ∷ t) (take-file_bytes f (s + 1) n m (omega arith))

pub drop-file_bytes :
    (f : ℕ → ℕ) (s n m : ℕ) → m ≤ n → drop m (file_bytes f s n) ≡ file_bytes f (s + m) (n - m)
unfolding file_bytes
drop-file_bytes f s n zero h = ap₂ (file_bytes f) (omega arith) (omega arith)
drop-file_bytes f s zero (suc m) h = absurd (omega arith)
drop-file_bytes f s (suc n) (suc m) h =
    drop-file_bytes f (s + 1) n m (omega arith) ∙ ap₂ (file_bytes f) (omega arith) (omega arith)

pub append-file_bytes :
    (f : ℕ → ℕ) (s n t m : ℕ)
    → s + n ≡ t
    → file_bytes f s n ++ file_bytes f t m ≡ file_bytes f s (n + m)
unfolding file_bytes
append-file_bytes f s zero t m e = ap₂ (file_bytes f) (omega arith) (omega arith)
append-file_bytes f s (suc n) t m e =
    ap (λ u. f s ∷ u) (append-file_bytes f (s + 1) n t m (omega arith)) ∙ ap (file_bytes f s) grow
  where
    grow : suc (n + m) ≡ suc n + m
    grow = omega arith

pub drop_all : (xs : List ℕ) (n : ℕ) → length xs ≤ n → drop n xs ≡ []
drop_all [] zero h = refl
drop_all [] (suc n) h = refl
drop_all (x ∷ xs) zero h = absurd (omega arith)
drop_all (x ∷ xs) (suc n) h = drop_all xs n (omega arith)

copied_fits :
    (buf : List ℕ) (off : ℕ) (b : List ℕ)
    → off + length b ≤ length buf
    → copied buf off b ≡ length b
copied_fits buf off b h = ground arith

copy_into_fits :
    (buf : List ℕ) (off : ℕ) (b : List ℕ)
    → off + length b ≤ length buf
    → copy_into buf off b ≡ take off buf ++ (b ++ drop (off + length b) buf)
unfolding copy_into
copy_into_fits buf off b h = rw (copied_fits buf off b h, take_all b) refl

-- Two parts that fill the destination.
pub stitch_fills :
    (out x y : List ℕ)
    → length out ≡ length x + length y
    → stitch out x y ≡ (x ++ y, length x + length y)
stitch_fills out x y h =
    rw (copied_fits out 0 x (omega arith), first)
      (ap₂ (λ (u : List ℕ) (v : ℕ). (u, length x + v)) second
        (copied_fits filled (length x) y (omega (arith, size))))
  where
    filled : List ℕ
    filled = x ++ drop (length x) out

    size : length filled ≡ length out
    size = omega (arith, length-append x (drop (length x) out), length-drop (length x) out)

    first : copy_into out 0 x ≡ filled
    first = copy_into_fits out 0 x (omega arith) ∙ ap (λ k. x ++ drop k out) (omega arith)

    second : copy_into filled (length x) y ≡ x ++ y
    second =
        copy_into_fits filled (length x) y (omega (arith, size))
        ∙ ap₂ ◌++◌ (take-append x (drop (length x) out) (length x) refl) (
            ap (λ r. y ++ r) (drop_all filled (length x + length y) (omega (arith, size)))
            ∙ append-nil y)

-- One part that fills the destination.
pub copy_fills :
    (out x : List ℕ) → length out ≡ length x → (copy_into out 0 x ≡ x) × (copied out 0 x ≡ length x)
copy_fills out x h = (
  copy_into_fits out 0 x (omega arith)
      ∙ ap (λ r. x ++ r) (drop_all out (0 + length x) (omega arith))
      ∙ append-nil x,
  copied_fits out 0 x (omega arith),
)
