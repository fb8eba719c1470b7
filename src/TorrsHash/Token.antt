-- ===== src/TorrsHash/Token.antt =====
-- pack.go: what is unpacked of a token.
use gostream.Prelude.{
  ℕ, zero, suc, ◌/◌, ◌%◌, ◌==◌, ◌≤◌, ◌<◌, ltb, leb, ◌≡◌, refl, ap, ◌∙◌, if_holds, Bool, true, false,
  ◌&&◌, ◌||◌, List, [], ◌∷◌, map, Option, none, some, length, get_or, arith, All,
}
use mathlib.Core.List.{reverse, reverse-reverse}
use gostream.TorrsHash.Base62.{base62_alphabet, set_bytes, rounds, encode_loop, encode62, decode62}
use gostream.TorrsHash.Digits.{IsByte}
use gostream.TorrsHash.Encoded.{HasNoLeadingZero, decode62-encode62, All-reverse}
use gostream.TorrsHash.Fields.{spaces, drop_space, trim_left, trim_space}
use gostream.TorrsHash.Pack.{TorrsHash, unpacked, unpack_bytes, token, pack, unpack}
use gostream.TorrsHash.Packed.{IsPackable, unpack_bytes-pack_bytes}

-- A printable character of ASCII.
abbrev IsPlain : ℕ → Type 0
IsPlain c = (33 ≤ c) × (c < 128)

abbrev are_plain : List ℕ → Bool
are_plain [] = true
are_plain (c ∷ cs) = (leb 33 c && ltb c 128) && are_plain cs

-- No encoding begins with such a character.
abbrev none_plain : List (List ℕ) → Bool
none_plain [] = true
none_plain ([] ∷ ps) = false
none_plain ((p ∷ q) ∷ ps) = (ltb p 33 || leb 128 p) && none_plain ps

both : (a b : Bool) → (a && b) ≡ true → (a ≡ true) × (b ≡ true)
both true b e = (refl, e)
both false b e = absurd cc

differ : (p c : ℕ) → (ltb p 33 || leb 128 p) ≡ true → IsPlain c → (p == c) ≡ false
differ p c e h = ground (arith, e, h)

drop_space-none :
    (ps : List (List ℕ)) (c : ℕ) (cs : List ℕ)
    → none_plain ps ≡ true
    → IsPlain c
    → drop_space ps (c ∷ cs) ≡ none
drop_space-none [] c cs e h = refl
drop_space-none ([] ∷ ps) c cs e h = absurd cc
drop_space-none ((p ∷ q) ∷ ps) c cs e h =
    let (l, r) = both (ltb p 33 || leb 128 p) (none_plain ps) e in
    rw (differ p c l h, drop_space) (drop_space-none ps c cs r h)

drop_space-nil : (ps : List (List ℕ)) → none_plain ps ≡ true → drop_space ps [] ≡ none
drop_space-nil [] e = refl
drop_space-nil ([] ∷ ps) e = absurd cc
drop_space-nil ((p ∷ q) ∷ ps) e =
    drop_space-nil ps (both (ltb p 33 || leb 128 p) (none_plain ps) e).1

trim_left-plain :
    (ps : List (List ℕ)) (n : ℕ) (cs : List ℕ)
    → none_plain ps ≡ true
    → All IsPlain cs
    → trim_left ps n cs ≡ cs
unfolding trim_left
trim_left-plain ps zero cs e a = refl
trim_left-plain ps (suc n) [] e a = rw (drop_space-nil ps e, trim_left) refl
trim_left-plain ps (suc n) (c ∷ cs) e a = rw (drop_space-none ps c cs e a.0, trim_left) refl

trim_space-plain : (cs : List ℕ) → All IsPlain cs → trim_space cs ≡ cs
unfolding trim_space
trim_space-plain cs a =
    ap (λ x. reverse (trim_left (map reverse spaces) (length x) (reverse x)))
      (trim_left-plain spaces (length cs) cs refl a)
    ∙ ap reverse (
        trim_left-plain (map reverse spaces) (length cs) (reverse cs) refl
          (All-reverse IsPlain cs a))
    ∙ reverse-reverse cs

get_or-IsPlain :
    (xs : List ℕ) (i : ℕ) → are_plain xs ≡ true → i < length xs → IsPlain (get_or xs i 0)
get_or-IsPlain [] i e l = absurd (omega arith)
get_or-IsPlain (c ∷ cs) zero e l =
    let here = (both (leb 33 c && ltb c 128) (are_plain cs) e).0 in
    let parts = both (leb 33 c) (ltb c 128) here in (ground (arith, parts), ground (arith, parts))
get_or-IsPlain (c ∷ cs) (suc i) e l =
    get_or-IsPlain cs i (both (leb 33 c && ltb c 128) (are_plain cs) e).1 (omega arith)

encode_loop-IsPlain : (n x : ℕ) → All IsPlain (encode_loop n x)
unfolding encode_loop
encode_loop-IsPlain zero x = tt
encode_loop-IsPlain (suc n) x =
    if_holds (All IsPlain) (ltb 0 x) (get_or base62_alphabet (x % 62) 0 ∷ encode_loop n (x / 62)) []
      (get_or-IsPlain base62_alphabet (x % 62) refl (omega arith), encode_loop-IsPlain n (x / 62))
      tt

trim_space-encode62 : (b : List ℕ) → trim_space (encode62 b) ≡ encode62 b
unfolding encode62
trim_space-encode62 b = trim_space-plain (encode62 b) (
    All-reverse IsPlain (encode_loop (rounds b) (set_bytes b))
      (encode_loop-IsPlain (rounds b) (set_bytes b)))

module _ (deflate : List ℕ → List ℕ) (inflate : List ℕ → Option (List ℕ)) where
  -- Packing a hash gives a token, and unpacking the token gives the hash with all its fields, in their
  -- order, and no error: for a hash of 40 lower-case hexadecimal digits with fields that are trimmed
  -- texts of 1 to 65535 bytes or sizes that are not 0 in the form in which they are read, where inflating
  -- undoes deflating and what deflating gives are bytes of which the first is not zero.
  pub unpack-pack :
      (th : TorrsHash)
      → ((bs : List ℕ) → All IsByte bs → inflate (deflate bs) ≡ some bs)
      → ((bs : List ℕ) → All IsByte bs → All IsByte (deflate bs) × HasNoLeadingZero (deflate bs))
      → IsPackable th
      → (s : List ℕ) × (pack deflate th ≡ some s) × (unpack inflate s ≡ unpacked th true)
  unfolding pack unpack
  unpack-pack th zlib header p =
      let (bs, in_bytes, packed, back) = unpack_bytes-pack_bytes deflate inflate th zlib p in
      let (bytes, leading) = header bs in_bytes in
      (
        encode62 (deflate bs),
        ap token packed,
        ap (λ s. unpack_bytes inflate (decode62 s)) (trim_space-encode62 (deflate bs))
            ∙ ap (unpack_bytes inflate) (decode62-encode62 (deflate bs) bytes leading)
            ∙ back,
      )
