-- ===== src/TorrsHash/Tests.antt =====
-- Three bytes in base 62, and a hash with a title and a size. The deflating here puts the first byte of
-- a zlib header in front.
use gostream.Prelude.{
  ◌≡◌, refl, List, [], ◌∷◌, ℕ, ◌+◌, zero, suc, arith, inl, inr, pos, replicate, Option, some, none,
  true, All,
}
use gostream.TorrsHash.Base62.{encode62, decode62, encode_loop, rounds, set_bytes}
use gostream.TorrsHash.Fields.{Field, trim_space, parse_int, format_int, write}
use gostream.TorrsHash.Digits.{IsByte}
use gostream.TorrsHash.Pack.{TorrsHash, hex_encode, pack, unpack, unpacked}
use gostream.TorrsHash.Packed.{IsPackable}
use gostream.TorrsHash.Token.{unpack-pack}
use gostream.TorrsHash.Encoded.{encode_loop-rounds}

abbrev bytes : List ℕ
bytes = 120 ∷ 0 ∷ 255 ∷ []

-- "Wzvz".
encoded : encode62 bytes ≡ 87 ∷ 122 ∷ 118 ∷ 122 ∷ []
unfolding encode62
encoded = refl

-- A zero in front is lost.
leading : decode62 (encode62 (0 ∷ 7 ∷ [])) ≡ 7 ∷ []
unfolding encode62 decode62
leading = refl

-- "-" has no place in the alphabet, and stands for -1.
outside : decode62 (45 ∷ 48 ∷ []) ≡ 62 ∷ []
unfolding decode62
outside = refl

encode_loop-rounds_example :
    encode_loop (rounds bytes + 5) (set_bytes bytes) ≡ encode_loop (rounds bytes) (set_bytes bytes)
encode_loop-rounds_example =
    encode_loop-rounds bytes 5 (omega arith, (omega arith, (omega arith, tt)))

abbrev deflate : List ℕ → List ℕ
deflate bs = 120 ∷ bs

abbrev inflate : List ℕ → Option (List ℕ)
inflate [] = none
inflate (b ∷ bs) = some bs

-- "Up"
abbrev name : Field
name = record { tag = 0; value = 85 ∷ 112 ∷ [] }

-- "700"
abbrev size : Field
size = record { tag = 4; value = 55 ∷ 48 ∷ 48 ∷ [] }

-- "00"
abbrev zeros : Field
zeros = record { tag = 4; value = 48 ∷ 48 ∷ [] }

abbrev film : TorrsHash
film = record { hash = hex_encode (replicate 20 171); fields = name ∷ size ∷ [] }

film-IsPackable : IsPackable film
unfolding trim_space parse_int format_int hex_encode
film-IsPackable = record {
  bytes = replicate 20 171;
  twenty = refl;
  in_bytes = all 20;
  digits = refl;
  trimmed = refl;
  writable = (
    inl (refl, omega arith, refl, omega arith, omega arith, (omega arith, (omega arith, tt))),
    (inr (refl, refl, refl, (pos 700, refl, refl, refl)), tt),
  );
}
  where
    all : (n : ℕ) → All IsByte (replicate n 171)
    all zero = tt
    all (suc n) = (omega arith, all n)

-- "-1" is written in two's complement.
negative : write (record { tag = 4; value = 45 ∷ 49 ∷ [] }) ≡ (4 ∷ replicate 8 255, true)
unfolding write
negative = refl

-- Space around a value is not written.
trimmed :
    write (record { tag = 0; value = 32 ∷ 85 ∷ 194 ∷ 160 ∷ 9 ∷ [] }) ≡ (0 ∷ 1 ∷ 0 ∷ 85 ∷ [], true)
unfolding write
trimmed = refl

unpack-pack_example :
    (s : List ℕ) × (pack deflate film ≡ some s) × (unpack inflate s ≡ unpacked film true)
unpack-pack_example =
    unpack-pack deflate inflate film (λ bs a. refl) (λ bs a. ((omega arith, a), omega arith))
      film-IsPackable
