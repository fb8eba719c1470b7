-- ===== src/TorrsHash/Pack.antt =====
-- pack.go: a hash and its fields as compressed bytes and as a token. torrshash.go: the fields by tag.
--
-- zlib is a parameter: `deflate`, and `inflate`, which gives nothing where the header is wrong. A stream
-- that breaks off in its middle is left out.
use gostream.Prelude.{
  ℕ, zero, suc, ◌+◌, ◌*◌, ◌-◌, ◌/◌, ◌%◌, ◌==◌, ltb, leb, if◌then◌else◌, Bool, true, false, ◌&&◌,
  List, [], ◌∷◌, ◌++◌, Option, none, some, length, take, drop,
}
use gostream.TorrsHash.Base62.{encode62, decode62}
use gostream.TorrsHash.Fields.{
  Field, tag_title, tag_poster, tag_tracker, tag_category, trim_space, write, field, at_end, fails,
  read_field,
}

pub record TorrsHash : Type 0 where
  pub hash : List ℕ
  pub fields : List Field

abbrev pub add_field : TorrsHash → ℕ → List ℕ → TorrsHash
add_field th tag value = record th {
  fields = th.fields ++ record { tag = tag; value = value } ∷ [];
}

-- The value of the first field with the tag, or the empty string.
unfoldable pub first_value : ℕ → List Field → List ℕ
first_value tag [] = []
first_value tag (f ∷ fs) = if f.tag == tag then f.value else first_value tag fs

unfoldable pub all_values : ℕ → List Field → List (List ℕ)
all_values tag [] = []
all_values tag (f ∷ fs) =
    let rest = all_values tag fs in if f.tag == tag then f.value ∷ rest else rest

abbrev pub title : TorrsHash → List ℕ
title th = first_value tag_title th.fields

abbrev pub poster : TorrsHash → List ℕ
poster th = first_value tag_poster th.fields

abbrev pub category : TorrsHash → List ℕ
category th = first_value tag_category th.fields

abbrev pub trackers : TorrsHash → List (List ℕ)
trackers th = all_values tag_tracker th.fields

-- A digit of `hex.DecodeString`.
unfoldable pub hex_digit : ℕ → Option ℕ
hex_digit c =
    if leb 48 c && leb c 57
    then some (c - 48)
    else if leb 97 c && leb c 102
    then some (c - 87)
    else if leb 65 c && leb c 70
    then some (c - 55)
    else none

abbrev pub hex_pair : Option ℕ → Option ℕ → Option ℕ
hex_pair none b = none
hex_pair (some a) none = none
hex_pair (some a) (some b) = some (a * 16 + b)

abbrev pub if_some : Option ℕ → List ℕ → List ℕ
if_some none bs = []
if_some (some b) bs = b ∷ bs

-- The bytes before the first error, since the error is dropped.
unfoldable pub hex_decode : List ℕ → List ℕ
unfolding hex_digit
hex_decode [] = []
hex_decode (a ∷ []) = []
hex_decode (a ∷ b ∷ cs) = if_some (hex_pair (hex_digit a) (hex_digit b)) (hex_decode cs)

abbrev pub hex_char : ℕ → ℕ
hex_char d = if ltb d 10 then 48 + d else 87 + d

unfoldable pub hex_encode : List ℕ → List ℕ
hex_encode [] = []
hex_encode (b ∷ bs) = hex_char (b / 16) ∷ hex_char (b % 16) ∷ hex_encode bs

abbrev pub then_fields : List ℕ × Bool → Option (List ℕ) → Option (List ℕ)
then_fields (bs, false) rest = none
then_fields (bs, true) none = none
then_fields (bs, true) (some cs) = some (bs ++ cs)

-- The loop over the fields; none is its error.
unfoldable pub write_fields : List Field → Option (List ℕ)
unfolding write
write_fields [] = some []
write_fields (f ∷ fs) = then_fields (write f) (write_fields fs)

-- The fields that were read, and whether there was no error. A field takes a byte at least, so the
-- length of the stream bounds the rounds.
unfoldable pub read_fields : ℕ → List ℕ → List Field × Bool
unfolding read_field
read_fields zero bs = ([], true)
read_fields (suc n) bs = elim (read_field bs) [
  | at_end ↦ ([], true)
  | fails ↦ ([], false)
  | field f rest ↦ let (fs, fine) = read_fields n rest in (f ∷ fs, fine)
]

-- What `unpack` returns: an error alone, or a hash and whether there is no error beside it.
pub data Unpacked : Type 0 where
  broken : Unpacked
  unpacked : TorrsHash → Bool → Unpacked

unfoldable pub unpack_stream : List ℕ → Unpacked
unfolding read_fields hex_encode
unpack_stream bs =
    let (fs, fine) = read_fields (suc (length bs)) (drop 20 bs) in
    if leb 20 (length bs)
    then unpacked (record { hash = hex_encode (take 20 bs); fields = fs }) fine
    else broken

abbrev pub deflated : (List ℕ → List ℕ) → List ℕ → Option (List ℕ) → Option (List ℕ)
deflated deflate hash none = none
deflated deflate hash (some bs) = some (deflate (hash ++ bs))

unfoldable pub pack_bytes : (List ℕ → List ℕ) → TorrsHash → Option (List ℕ)
unfolding write_fields hex_decode trim_space
pack_bytes deflate th = deflated deflate (hex_decode (trim_space th.hash)) (write_fields th.fields)

abbrev pub inflated : Option (List ℕ) → Unpacked
inflated none = broken
inflated (some bs) = unpack_stream bs

unfoldable pub unpack_bytes : (List ℕ → Option (List ℕ)) → List ℕ → Unpacked
unfolding unpack_stream
unpack_bytes inflate bs = inflated (inflate bs)

abbrev pub token : Option (List ℕ) → Option (List ℕ)
token none = none
token (some bs) = some (encode62 bs)

unfoldable pub pack : (List ℕ → List ℕ) → TorrsHash → Option (List ℕ)
unfolding pack_bytes encode62
pack deflate th = token (pack_bytes deflate th)

unfoldable pub unpack : (List ℕ → Option (List ℕ)) → List ℕ → Unpacked
unfolding unpack_bytes decode62 trim_space
unpack inflate s = unpack_bytes inflate (decode62 (trim_space s))
