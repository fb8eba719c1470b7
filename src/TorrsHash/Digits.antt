-- ===== src/TorrsHash/Digits.antt =====
-- The digits of a number, to base 62 and to base 256.
use gostream.Prelude.{
  ℕ, zero, suc, ◌+◌, ◌*◌, ◌/◌, ◌%◌, ◌≤◌, ◌<◌, ltb, ◌≡◌, refl, ap, sym, ◌∙◌, subst, if◌then◌else◌,
  if_of_true, if_of_false, List, [], ◌∷◌, ◌++◌, length, All, ap₂, get_or, arith,
}
use mathlib.Core.List.{reverse, reverse-cons}
use gostream.TorrsHash.Base62.{
  set_from, set_bytes, byte_digits, rounds, encode_loop, base62_alphabet,
}

-- How many numbers `n` digits can write.
unfoldable pub power62 : ℕ → ℕ
power62 zero = 1
power62 (suc n) = 62 * power62 n

unfoldable pub power256 : ℕ → ℕ
power256 zero = 1
power256 (suc n) = 256 * power256 n

abbrev pub IsByte : ℕ → Type 0
IsByte b = b < 256

pub set_from-bounded :
    (x n : ℕ) (bs : List ℕ)
    → x < power256 n
    → All IsByte bs
    → set_from x bs < power256 (n + length bs)
unfolding set_from power256
set_from-bounded x n [] h a = subst (λ k. x < power256 k) (omega arith) h
set_from-bounded x n (b ∷ bs) h a =
    subst (λ k. set_from (x * 256 + b) bs < power256 k) (omega arith)
      (set_from-bounded (x * 256 + b) (suc n) bs (larger x n b h a.0) a.1)
  where
    larger : (x n b : ℕ) → x < power256 n → b < 256 → x * 256 + b < power256 (suc n)
    larger x n b h l = omega arith

pub power256-power62 : (bs : List ℕ) → power256 (length bs) ≤ power62 (rounds bs)
unfolding power256 power62 rounds
power256-power62 [] = omega arith
power256-power62 (b ∷ bs) = omega (arith, power256-power62 bs)

pub power62-power256 : (n : ℕ) → power62 n ≤ power256 n
unfolding power256 power62
power62-power256 zero = omega arith
power62-power256 (suc n) = omega (arith, power62-power256 n)

encode_loop-zero : (n x : ℕ) → x < 1 → encode_loop (suc n) x ≡ []
unfolding encode_loop
encode_loop-zero n x h = if_of_false {b = ltb 0 x} _ _ (ground arith)

-- More rounds than the digits change nothing.
pub encode_loop-enough :
    (n m x : ℕ) → x < power62 n → x < power62 m → encode_loop n x ≡ encode_loop m x
unfolding encode_loop power62
encode_loop-enough zero zero x h k = refl
encode_loop-enough zero (suc m) x h k = sym (encode_loop-zero m x (omega arith))
encode_loop-enough (suc n) zero x h k = encode_loop-zero n x (omega arith)
encode_loop-enough (suc n) (suc m) x h k =
    ap (λ r. if ltb 0 x then get_or base62_alphabet (x % 62) 0 ∷ r else [])
      (encode_loop-enough n m (x / 62) (omega arith) (omega arith))

byte_digits-zero : (n x : ℕ) → x < 1 → byte_digits (suc n) x ≡ []
unfolding byte_digits
byte_digits-zero n x h = if_of_false {b = ltb 0 x} _ _ (ground arith)

pub byte_digits-enough :
    (n m x : ℕ) → x < power256 n → x < power256 m → byte_digits n x ≡ byte_digits m x
unfolding byte_digits power256
byte_digits-enough zero zero x h k = refl
byte_digits-enough zero (suc m) x h k = sym (byte_digits-zero m x (omega arith))
byte_digits-enough (suc n) zero x h k = byte_digits-zero n x (omega arith)
byte_digits-enough (suc n) (suc m) x h k =
    ap (λ r. if ltb 0 x then (x % 256) ∷ r else [])
      (byte_digits-enough n m (x / 256) (omega arith) (omega arith))

-- Digits, the last one not zero: those of a number.
abbrev pub LastPositive : List ℕ → Type 0
LastPositive [] = Unit
LastPositive (d ∷ []) = 0 < d
LastPositive (d ∷ e ∷ ds) = LastPositive (e ∷ ds)

pub set_from-append : (x : ℕ) (bs cs : List ℕ) → set_from x (bs ++ cs) ≡ set_from (set_from x bs) cs
unfolding set_from
set_from-append x [] cs = refl
set_from-append x (b ∷ bs) cs = set_from-append (x * 256 + b) bs cs

set_bytes-reverse :
    (d : ℕ) (ds : List ℕ) → set_bytes (reverse (d ∷ ds)) ≡ set_bytes (reverse ds) * 256 + d
unfolding set_from
set_bytes-reverse d ds = ap set_bytes (reverse-cons d ds) ∙ set_from-append 0 (reverse ds) (d ∷ [])

set_bytes-positive :
    (d : ℕ) (ds : List ℕ) → LastPositive (d ∷ ds) → 0 < set_bytes (reverse (d ∷ ds))
unfolding set_from
set_bytes-positive d [] h = omega (arith, set_bytes-reverse d [])
set_bytes-positive d (e ∷ ds) h =
    omega (arith, set_bytes-reverse d (e ∷ ds), set_bytes-positive e ds h)

pub byte_digits-set_bytes :
    (n : ℕ) (ds : List ℕ)
    → length ds ≤ n
    → All IsByte ds
    → LastPositive ds
    → byte_digits n (set_bytes (reverse ds)) ≡ ds
unfolding byte_digits set_from
byte_digits-set_bytes zero [] l a h = refl
byte_digits-set_bytes zero (d ∷ ds) l a h = absurd (omega arith)
byte_digits-set_bytes (suc n) [] l a h = refl
byte_digits-set_bytes (suc n) (d ∷ ds) l a h =
    if_of_true {b = ltb 0 (set_bytes (reverse (d ∷ ds)))} _ _
      (ground (arith, set_bytes-positive d ds h))
    ∙ ap₂ ◌∷◌ (omega (arith, e, a.0)) (
        ap (byte_digits n) (omega (arith, e, a.0))
        ∙ byte_digits-set_bytes n ds (omega arith) a.1 (tail d ds h))
  where
    e : set_bytes (reverse (d ∷ ds)) ≡ set_bytes (reverse ds) * 256 + d
    e = set_bytes-reverse d ds

    tail : (d : ℕ) (ds : List ℕ) → LastPositive (d ∷ ds) → LastPositive ds
    tail d [] h = tt
    tail d (e ∷ ds) h = h
