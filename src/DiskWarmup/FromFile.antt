-- ===== src/DiskWarmup/FromFile.antt =====
-- Lists of the bytes of a file, and what a write without a gap makes of one.

use gostream.Prelude.{
  ℕ, zero, suc, ◌+◌, ◌-◌, ◌≤◌, ◌<◌, ltb, Bool-cases, ◌≡◌, refl, sym, ap, ap₂, ◌∙◌, List, [], ◌∷◌,
  ◌++◌, length, take, drop, length-take, inl, inr, arith, ltb→lt,
}
use mathlib.Core.List.{append-nil}
use gostream.ReadAhead.Bytes.{
  file_bytes, length-file_bytes, take-file_bytes, drop-file_bytes, append-file_bytes, drop_all,
}
use gostream.DiskWarmup.Disk.{write_bytes}

-- A list of bytes of the file `f` from `s` on.
abbrev pub IsFrom : (ℕ → ℕ) → ℕ → List ℕ → Type 0
IsFrom f s xs = xs ≡ file_bytes f s (length xs)

file_bytes-IsFrom : (f : ℕ → ℕ) (s n : ℕ) (xs : List ℕ) → xs ≡ file_bytes f s n → IsFrom f s xs
file_bytes-IsFrom f s n xs e = e ∙ ap (file_bytes f s) (sym (ap length e ∙ length-file_bytes f s n))

pub nothing-IsFrom : (f : ℕ → ℕ) (s : ℕ) → IsFrom f s []
unfolding file_bytes
nothing-IsFrom f s = refl

pub take-IsFrom : (f : ℕ → ℕ) (s n : ℕ) (xs : List ℕ) → IsFrom f s xs → IsFrom f s (take n xs)
take-IsFrom f s n xs h = elim (Bool-cases (ltb (length xs) n)) [
  | inl t ↦ rw (take_more n xs (ltb→lt (length xs) n t)) h
  | inr t ↦
      file_bytes-IsFrom f s n (take n xs)
        (ap (take n) h ∙ take-file_bytes f s (length xs) n (ground (arith, t)))
]
  where
    take_more : (m : ℕ) (ys : List ℕ) → length ys < m → take m ys ≡ ys
    take_more zero ys k = absurd (omega arith)
    take_more (suc m) [] k = refl
    take_more (suc m) (y ∷ ys) k = ap (λ zs. y ∷ zs) (take_more m ys (omega arith))

pub drop-IsFrom : (f : ℕ → ℕ) (s n : ℕ) (xs : List ℕ) → IsFrom f s xs → IsFrom f (s + n) (drop n xs)
drop-IsFrom f s n xs h = elim (Bool-cases (ltb (length xs) n)) [
  | inl t ↦ rw (drop_all xs n (ground (arith, ltb→lt (length xs) n t))) (nothing-IsFrom f (s + n))
  | inr t ↦
      file_bytes-IsFrom f (s + n) (length xs - n) (drop n xs)
        (ap (drop n) h ∙ drop-file_bytes f s (length xs) n (ground (arith, t)))
]

append-IsFrom :
    (f : ℕ → ℕ) (s t : ℕ) (xs ys : List ℕ)
    → s + length xs ≡ t
    → IsFrom f s xs
    → IsFrom f t ys
    → IsFrom f s (xs ++ ys)
append-IsFrom f s t xs ys e h k =
    file_bytes-IsFrom f s (length xs + length ys) (xs ++ ys)
      (ap₂ ◌++◌ h k ∙ append-file_bytes f s (length xs) t (length ys) e)

-- A write without a gap.
pub write_bytes-IsFrom :
    (f : ℕ → ℕ) (s off : ℕ) (old part : List ℕ)
    → off ≤ length old
    → IsFrom f s old
    → IsFrom f (s + off) part
    → IsFrom f s (write_bytes old off part)
unfolding write_bytes
write_bytes-IsFrom f s off old [] h k l = k
write_bytes-IsFrom f s off old (x ∷ xs) h k l =
    let none_new : off - length old ≡ 0 = omega arith in
    let before = take-IsFrom f s off old k in
    let after = drop-IsFrom f s (off + length (x ∷ xs)) old k in
    rw (none_new, append-nil old)
      (append-IsFrom f s (s + off) (take off old) _ (omega (arith, length-take off old)) before
        (append-IsFrom f (s + off) (s + (off + length (x ∷ xs))) (x ∷ xs) _ (omega arith) l after))
