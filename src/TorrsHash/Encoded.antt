-- ===== src/TorrsHash/Encoded.antt =====
-- base62.go: `Encode62` and `Decode62` together, and the rounds of the loop.
use gostream.Prelude.{
  ℕ, zero, suc, ◌+◌, ◌/◌, ◌%◌, ◌≤◌, ◌<◌, ltb, ◌==◌, ==_iff, ◌≡◌, refl, ap, ap₂, sym, ◌∙◌, subst,
  if_of_true, if_of_false, Bool, true, false, ◌&&◌, Bool-cases, List, [], ◌∷◌, ◌++◌, length, All,
  arith, inl, inr, Option, none, some, get_or, ℤ, pos, negsuc, length-append,
}
use mathlib.Core.List.{reverse, reverse-cons, reverse-reverse}
use gostream.TorrsHash.Base62.{
  base62_alphabet, set_bytes, byte_digits, to_bytes, rounds, encode_loop, encode62, index_byte,
  mul_add, decode_from, magnitude, decode62,
}
use gostream.TorrsHash.Digits.{
  power62, power256, IsByte, set_from-bounded, power256-power62, power62-power256,
  encode_loop-enough, byte_digits-enough, byte_digits-set_bytes, LastPositive,
}

decode_from-append :
    (z : ℤ) (cs ds : List ℕ) → decode_from z (cs ++ ds) ≡ decode_from (decode_from z cs) ds
unfolding decode_from
decode_from-append z [] ds = refl
decode_from-append z (c ∷ cs) ds =
    decode_from-append (mul_add z (index_byte base62_alphabet (c % 256))) cs ds

is_index : Option ℕ → ℕ → Bool
is_index none v = false
is_index (some w) v = w == v

-- The index of each character of the alphabet.
indexes_below : ℕ → Bool
unfolding is_index index_byte
indexes_below zero = true
indexes_below (suc v) =
    indexes_below v && is_index (index_byte base62_alphabet (get_or base62_alphabet v 0 % 256)) v

all_indexes : indexes_below 62 ≡ true
unfolding indexes_below
all_indexes = refl

is_index-some : (o : Option ℕ) (v : ℕ) → is_index o v ≡ true → o ≡ some v
unfolding is_index
is_index-some none v e = absurd cc
is_index-some (some w) v e = ap some (ground (arith, e))

below : (v n : ℕ) → (v == n) ≡ false → v < suc n → v < n
below v n e l = ground (arith, e)

index_below :
    (n v : ℕ)
    → indexes_below n ≡ true
    → v < n
    → index_byte base62_alphabet (get_or base62_alphabet v 0 % 256) ≡ some v
unfolding indexes_below
index_below zero v e l = absurd (omega arith)
index_below (suc n) v e l = elim (Bool-cases (v == n)) [
  | inl t ↦
      let same : v ≡ n = (==_iff v n).0 t in
      subst (λ k. index_byte base62_alphabet (get_or base62_alphabet k 0 % 256) ≡ some k) (sym same)
        (is_index-some _ n (both e).1)
  | inr t ↦ index_below n v (both e).0 (below v n t l)
]
  where
    both : {a b : Bool} → (a && b) ≡ true → (a ≡ true) × (b ≡ true)
    both {a = true} e = (refl, e)
    both {a = false} e = absurd cc

decode_from-encode_loop :
    (n x : ℕ) → x < power62 n → decode_from (pos 0) (reverse (encode_loop n x)) ≡ pos x
unfolding encode_loop power62 decode_from
decode_from-encode_loop zero x h = ap pos (omega arith)
decode_from-encode_loop (suc n) x h = elim (Bool-cases (ltb 0 x)) [
  | inr t ↦
      subst (λ cs. decode_from (pos 0) (reverse cs) ≡ pos x) (sym (if_of_false _ _ t))
        (ap pos (ground (arith, t)))
  | inl t ↦
      subst (λ cs. decode_from (pos 0) (reverse cs) ≡ pos x) (sym (if_of_true _ _ t))
        (ap (decode_from (pos 0)) (reverse-cons _ (encode_loop n (x / 62)))
          ∙ decode_from-append (pos 0) (reverse (encode_loop n (x / 62)))
              (get_or base62_alphabet (x % 62) 0 ∷ [])
          ∙ ap₂ mul_add (decode_from-encode_loop n (x / 62) (omega arith))
              (index_below 62 (x % 62) all_indexes (omega arith))
          ∙ ap pos (omega arith))
]

-- The number that a string stands for has as many digits as the string at most.
magnitude-mul_add :
    (z : ℤ) (o : Option ℕ) (n : ℕ)
    → ((v : ℕ) → o ≡ some v → v < 62)
    → magnitude z < power62 n
    → magnitude (mul_add z o) < power62 (suc n)
unfolding power62
magnitude-mul_add (pos x) (some v) n h k = omega (arith, h v refl)
magnitude-mul_add (pos x) none n h k = ground arith
magnitude-mul_add (negsuc x) (some v) n h k = ground (arith, h v refl)
magnitude-mul_add (negsuc x) none n h k = omega arith

index_byte-bounded : (xs : List ℕ) (c v : ℕ) → index_byte xs c ≡ some v → v < length xs
unfolding index_byte
index_byte-bounded [] c v e = absurd cc
index_byte-bounded (a ∷ rest) c v e = elim (Bool-cases (a == c)) [
  | inl t ↦ let first : 0 ≡ v = some_inj (sym (if_of_true _ _ t) ∙ e) in omega (arith, first)
  | inr t ↦ later (index_byte-bounded rest c) (index_byte rest c) refl (sym (if_of_false _ _ t) ∙ e)
]
  where
    some_inj : {x y : ℕ} → some x ≡ some y → x ≡ y
    some_inj e = cc

    later :
        ((i : ℕ) → index_byte rest c ≡ some i → i < length rest)
        → (o : Option ℕ) → index_byte rest c ≡ o
        → elim o [ none ↦ none | some i ↦ some (suc i) ] ≡ some v
        → v < suc (length rest)
    later h none q e = absurd cc
    later h (some i) q e =
        let ih = h i q in let next : suc i ≡ v = some_inj e in omega (arith, ih, next)

magnitude-decode_from :
    (z : ℤ) (n : ℕ) (cs : List ℕ)
    → magnitude z < power62 n
    → magnitude (decode_from z cs) < power62 (n + length cs)
unfolding decode_from
magnitude-decode_from z n [] h = subst (λ k. magnitude z < power62 k) (omega arith) h
magnitude-decode_from z n (c ∷ cs) h =
    let i = index_byte base62_alphabet (c % 256) in
    subst (λ k. magnitude (decode_from (mul_add z i) cs) < power62 k) (omega arith)
      (magnitude-decode_from (mul_add z i) (suc n) cs
        (magnitude-mul_add z i n (index_byte-bounded base62_alphabet (c % 256)) h))

length-reverse : (xs : List ℕ) → length (reverse xs) ≡ length xs
length-reverse [] = refl
length-reverse (x ∷ xs) =
    ap length (reverse-cons x xs)
    ∙ length-append (reverse xs) (x ∷ [])
    ∙ omega (arith, length-reverse xs)

All-append : (P : ℕ → Type 0) (xs : List ℕ) (y : ℕ) → All P xs → P y → All P (xs ++ y ∷ [])
All-append P [] y a p = (p, tt)
All-append P (x ∷ xs) y a p = (a.0, All-append P xs y a.1 p)

pub All-reverse : (P : ℕ → Type 0) (xs : List ℕ) → All P xs → All P (reverse xs)
All-reverse P [] a = tt
All-reverse P (x ∷ xs) a =
    subst (All P) (sym (reverse-cons x xs)) (All-append P (reverse xs) x (All-reverse P xs a.1) a.0)

LastPositive-append : (xs : List ℕ) (y : ℕ) → 0 < y → LastPositive (xs ++ y ∷ [])
LastPositive-append [] y h = h
LastPositive-append (x ∷ []) y h = h
LastPositive-append (x ∷ w ∷ xs) y h = LastPositive-append (w ∷ xs) y h

-- No bytes, or a first one that is not zero.
abbrev pub HasNoLeadingZero : List ℕ → Type 0
HasNoLeadingZero [] = Unit
HasNoLeadingZero (b ∷ bs) = 0 < b

LastPositive-reverse : (bs : List ℕ) → HasNoLeadingZero bs → LastPositive (reverse bs)
LastPositive-reverse [] h = tt
LastPositive-reverse (b ∷ bs) h =
    subst LastPositive (sym (reverse-cons b bs)) (LastPositive-append (reverse bs) b h)

set_bytes-bounded :
    (b : List ℕ)
    → All IsByte b
    → (set_bytes b < power256 (length b)) × (set_bytes b < power62 (rounds b))
unfolding power256
set_bytes-bounded b a =
    let small = set_from-bounded 0 0 b (omega arith) a in
    let least : set_bytes b < power256 (length b) =
      subst (λ k. set_bytes b < power256 k) (omega arith) small in
    (least, omega (arith, least, power256-power62 b))

-- Decoding gives back what was encoded, if that are bytes and the first one is not zero.
pub decode62-encode62 : (b : List ℕ) → All IsByte b → HasNoLeadingZero b → decode62 (encode62 b) ≡ b
unfolding decode62 encode62 power62
decode62-encode62 b a h =
    ap (λ z. to_bytes (length s) (magnitude z)) back
    ∙ ap reverse (
        byte_digits-enough (length s) (length b) (set_bytes b)
          (omega (arith, short, power62-power256 (length s))) size.0
        ∙ ap (λ c. byte_digits (length b) (set_bytes c)) (sym (reverse-reverse b))
        ∙ byte_digits-set_bytes (length b) (reverse b) (omega (arith, length-reverse b))
            (All-reverse IsByte b a) (LastPositive-reverse b h))
    ∙ reverse-reverse b
  where
    size : (set_bytes b < power256 (length b)) × (set_bytes b < power62 (rounds b))
    size = set_bytes-bounded b a

    s : List ℕ
    s = encode62 b

    back : decode_from (pos 0) s ≡ pos (set_bytes b)
    back = decode_from-encode_loop (rounds b) (set_bytes b) size.1

    short : set_bytes b < power62 (length s)
    short =
        subst (λ z. magnitude z < power62 (length s)) back
          (subst (λ k. magnitude (decode_from (pos 0) s) < power62 k) (omega arith)
            (magnitude-decode_from (pos 0) 0 s (omega arith)))

power62_mono : (n more : ℕ) → power62 n ≤ power62 (n + more)
unfolding power62
power62_mono n zero =
    let same : power62 n ≤ power62 n = omega arith in
    subst (λ k. power62 n ≤ power62 k) (omega arith) same
power62_mono n (suc more) =
    let next : power62 n ≤ power62 (suc (n + more)) = omega (arith, power62_mono n more) in
    let grow : suc (n + more) ≡ n + suc more = omega arith in
    subst (λ k. power62 n ≤ power62 k) grow next

-- The loop of `Encode62` ends: after two rounds for each byte at the latest the number is 0, and
-- further rounds add no character.
pub encode_loop-rounds :
    (b : List ℕ) (more : ℕ)
    → All IsByte b
    → encode_loop (rounds b + more) (set_bytes b) ≡ encode_loop (rounds b) (set_bytes b)
encode_loop-rounds b more a =
    let small = (set_bytes-bounded b a).1 in
    encode_loop-enough (rounds b + more) (rounds b) (set_bytes b)
      (omega (arith, small, power62_mono (rounds b) more)) small
