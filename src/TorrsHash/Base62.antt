-- ===== src/TorrsHash/Base62.antt =====
-- base62.go: bytes as text over 62 characters.
--
-- A string is the list of its runes. A `big.Int` is a number, with a sign where it may be negative:
-- `bytes.IndexByte` gives -1 for a character that is none of the 62, and `Decode62` adds that.
use gostream.Prelude.{
  ℕ, zero, suc, ◌+◌, ◌*◌, ◌/◌, ◌%◌, ◌==◌, ltb, if◌then◌else◌, List, [], ◌∷◌, Option, none, some,
  length, get_or, ℤ, pos, negsuc, sub_int,
}
use mathlib.Core.List.{reverse}

-- "0" to "9", "A" to "Z" and "a" to "z".
abbrev pub base62_alphabet : List ℕ
base62_alphabet =
    48 ∷ 49 ∷ 50 ∷ 51 ∷ 52 ∷ 53 ∷ 54 ∷ 55 ∷ 56 ∷ 57 ∷ 65 ∷ 66 ∷ 67 ∷ 68 ∷ 69 ∷ 70 ∷ 71 ∷ 72 ∷ 73
    ∷ 74 ∷ 75 ∷ 76 ∷ 77 ∷ 78 ∷ 79 ∷ 80 ∷ 81 ∷ 82 ∷ 83 ∷ 84 ∷ 85 ∷ 86 ∷ 87 ∷ 88 ∷ 89 ∷ 90 ∷ 97 ∷ 98
    ∷ 99 ∷ 100 ∷ 101 ∷ 102 ∷ 103 ∷ 104 ∷ 105 ∷ 106 ∷ 107 ∷ 108 ∷ 109 ∷ 110 ∷ 111 ∷ 112 ∷ 113 ∷ 114
    ∷ 115 ∷ 116 ∷ 117 ∷ 118 ∷ 119 ∷ 120 ∷ 121 ∷ 122 ∷ []

-- `SetBytes`: the number whose big-endian bytes these are.
unfoldable pub set_from : ℕ → List ℕ → ℕ
set_from x [] = x
set_from x (b ∷ bs) = set_from (x * 256 + b) bs

abbrev pub set_bytes : List ℕ → ℕ
set_bytes bs = set_from 0 bs

-- `Bytes`: the big-endian bytes of a number, without a zero in front. `n` bounds how many there are.
unfoldable pub byte_digits : ℕ → ℕ → List ℕ
byte_digits zero x = []
byte_digits (suc n) x =
    let rest = byte_digits n (x / 256) in if ltb 0 x then (x % 256) ∷ rest else []

abbrev pub to_bytes : ℕ → ℕ → List ℕ
to_bytes n x = reverse (byte_digits n x)

-- Two rounds of the loop for each byte are enough.
unfoldable pub rounds : List ℕ → ℕ
rounds [] = 0
rounds (b ∷ bs) = suc (suc (rounds bs))

-- The loop of `Encode62`: the characters, the last one first.
unfoldable pub encode_loop : ℕ → ℕ → List ℕ
encode_loop zero x = []
encode_loop (suc n) x =
    let rest = encode_loop n (x / 62) in
    if ltb 0 x then get_or base62_alphabet (x % 62) 0 ∷ rest else []

unfoldable pub encode62 : List ℕ → List ℕ
unfolding encode_loop rounds set_from
encode62 b = reverse (encode_loop (rounds b) (set_bytes b))

unfoldable pub index_byte : List ℕ → ℕ → Option ℕ
index_byte [] c = none
index_byte (a ∷ rest) c =
    if a == c then some 0 else elim (index_byte rest c) [ none ↦ none | some i ↦ some (suc i) ]

-- `res * 62 + val`, where no index stands for -1.
abbrev pub mul_add : ℤ → Option ℕ → ℤ
mul_add (pos x) (some v) = pos (x * 62 + v)
mul_add (pos x) none = sub_int (x * 62) 1
mul_add (negsuc x) (some v) = sub_int v (x * 62 + 62)
mul_add (negsuc x) none = negsuc (x * 62 + 62)

unfoldable pub decode_from : ℤ → List ℕ → ℤ
unfolding index_byte
decode_from z [] = z
decode_from z (c ∷ cs) = decode_from (mul_add z (index_byte base62_alphabet (c % 256))) cs

abbrev pub magnitude : ℤ → ℕ
magnitude (pos x) = x
magnitude (negsuc x) = x + 1

-- A character is less than a byte.
unfoldable pub decode62 : List ℕ → List ℕ
unfolding decode_from byte_digits
decode62 s = to_bytes (length s) (magnitude (decode_from (pos 0) s))
