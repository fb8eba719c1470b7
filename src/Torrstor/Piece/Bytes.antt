-- ===== src/Torrstor/Piece/Bytes.antt =====
-- The bytes of a buffer under a copy.

use gostream.Prelude.{
  ℕ, zero, suc, ◌+◌, ◌-◌, ◌≤◌, ◌<◌, ◌≡◌, refl, ap, List, [], ◌∷◌, ◌++◌, length, take, drop,
  length-append, length-take, length-drop, arith, ◌∙◌, get_elem?, ◌⊎◌, inl, inr,
}
use gostream.Torrstor.Piece.{copied, copy_into}

pub length-copy_into :
    (buf : List ℕ) (off : ℕ) (b : List ℕ)
    → off ≤ length buf
    → length (copy_into buf off b) ≡ length buf
unfolding copy_into
length-copy_into buf off b h =
    let n = copied buf off b in
    ground (
      arith,
      length-append (take off buf) (take n b ++ drop (off + n) buf),
      length-append (take n b) (drop (off + n) buf),
      length-take off buf,
      length-take n b,
      length-drop (off + n) buf,
    )

pub drop-append : (xs ys : List ℕ) (n : ℕ) → length xs ≡ n → drop n (xs ++ ys) ≡ ys
drop-append [] ys zero h = refl
drop-append [] ys (suc n) h = absurd (omega arith)
drop-append (x ∷ xs) ys zero h = absurd (omega arith)
drop-append (x ∷ xs) ys (suc n) h = drop-append xs ys n (omega arith)

pub take-append : (xs ys : List ℕ) (n : ℕ) → length xs ≡ n → take n (xs ++ ys) ≡ xs
take-append [] ys zero h = refl
take-append [] ys (suc n) h = absurd (omega arith)
take-append (x ∷ xs) ys zero h = absurd (omega arith)
take-append (x ∷ xs) ys (suc n) h = ap (◌∷◌ x) (take-append xs ys n (omega arith))

pub take_all : (xs : List ℕ) → take (length xs) xs ≡ xs
take_all [] = refl
take_all (x ∷ xs) = ap (◌∷◌ x) (take_all xs)

-- What was copied in is found where it was put.
pub read-copy_into :
    (buf : List ℕ) (off : ℕ) (b : List ℕ)
    → off + length b ≤ length buf
    → take (length b) (drop off (copy_into buf off b)) ≡ b
unfolding copy_into
read-copy_into buf off b h =
    let n : copied buf off b ≡ length b = ground arith in
    let all = take_all b in
    let prefix : length (take off buf) ≡ off = omega (arith, length-take off buf) in
    rw (n, all)
      (rw (drop-append (take off buf) (b ++ drop (off + length b) buf) off prefix)
        (take-append b (drop (off + length b) buf) (length b) refl))

get_elem?-append_left :
    (xs ys : List ℕ) (i : ℕ) → i < length xs → get_elem? (xs ++ ys) i ≡ get_elem? xs i
get_elem?-append_left [] ys i h = elim h [ ]
get_elem?-append_left (x ∷ xs) ys zero h = refl
get_elem?-append_left (x ∷ xs) ys (suc i) h = get_elem?-append_left xs ys i (omega arith)

get_elem?-append_right :
    (xs ys : List ℕ) (i j : ℕ) → i ≡ length xs + j → get_elem? (xs ++ ys) i ≡ get_elem? ys j
get_elem?-append_right [] ys i j h = ap (get_elem? ys) (omega arith)
get_elem?-append_right (x ∷ xs) ys zero j h = absurd (omega arith)
get_elem?-append_right (x ∷ xs) ys (suc i) j h = get_elem?-append_right xs ys i j (omega arith)

get_elem?-take : (n : ℕ) (xs : List ℕ) (i : ℕ) → i < n → get_elem? (take n xs) i ≡ get_elem? xs i
get_elem?-take zero xs i h = elim h [ ]
get_elem?-take (suc n) [] i h = refl
get_elem?-take (suc n) (x ∷ xs) zero h = refl
get_elem?-take (suc n) (x ∷ xs) (suc i) h = get_elem?-take n xs i (omega arith)

get_elem?-drop :
    (n : ℕ) (xs : List ℕ) (j i : ℕ) → i ≡ n + j → get_elem? (drop n xs) j ≡ get_elem? xs i
get_elem?-drop zero xs j i h = ap (get_elem? xs) (omega arith)
get_elem?-drop (suc n) [] j i h = refl
get_elem?-drop (suc n) (x ∷ xs) j zero h = absurd (omega arith)
get_elem?-drop (suc n) (x ∷ xs) j (suc i) h = get_elem?-drop n xs j i (omega arith)

-- A byte outside the copied part stays.
pub copy_into_outside :
    (buf : List ℕ) (off : ℕ) (b : List ℕ) (i : ℕ)
    → off + length b ≤ length buf
    → (i < off) ⊎ (off + length b ≤ i)
    → get_elem? (copy_into buf off b) i ≡ get_elem? buf i
unfolding copy_into
copy_into_outside buf off b i h (inl before) =
    get_elem?-append_left (take off buf) _ i (omega (arith, length-take off buf))
    ∙ get_elem?-take off buf i before
copy_into_outside buf off b i h (inr behind) =
    let n : copied buf off b ≡ length b = ground arith in
    rw (n, take_all b)
      (get_elem?-append_right (take off buf) _ i (i - off) (omega (arith, length-take off buf))
        ∙ get_elem?-append_right b _ (i - off) (i - off - length b) (omega arith)
        ∙ get_elem?-drop (off + length b) buf (i - off - length b) i (omega arith))
