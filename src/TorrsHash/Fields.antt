-- ===== src/TorrsHash/Fields.antt =====
-- fields.go: a field in the stream, one byte for its tag and then its value.
--
-- A value is the list of its bytes, an int64 an integer of that range. What is read is what the stream
-- still holds. A read of the tag that gives no byte is the end of the stream, and so is one that gives
-- the last byte, which the decompressor returns together with io.EOF.
use gostream.Prelude.{
  ℕ, zero, suc, ◌+◌, ◌*◌, ◌-◌, ◌/◌, ◌%◌, ◌^◌, ◌==◌, ltb, leb, if◌then◌else◌, Bool, true, false,
  ◌&&◌, List, [], ◌∷◌, ◌++◌, map, Option, none, some, length, take, drop, ℤ, pos, negsuc,
}
use mathlib.Core.List.{reverse}

abbrev pub tag_title : ℕ
tag_title = 0

abbrev pub tag_poster : ℕ
tag_poster = 1

abbrev pub tag_tracker : ℕ
tag_tracker = 2

abbrev pub tag_category : ℕ
tag_category = 3

abbrev pub tag_size : ℕ
tag_size = 4

pub record Field : Type 0 where
  pub tag : ℕ
  pub value : List ℕ

abbrev pub is_binary : ℕ → Bool
is_binary t = t == tag_size

-- The encodings of the characters that `strings.TrimSpace` removes.
abbrev pub spaces : List (List ℕ)
spaces =
    (9 ∷ [])
    ∷ (10 ∷ [])
    ∷ (11 ∷ [])
    ∷ (12 ∷ [])
    ∷ (13 ∷ [])
    ∷ (32 ∷ [])
    ∷ (194 ∷ 133 ∷ [])
    ∷ (194 ∷ 160 ∷ [])
    ∷ (225 ∷ 154 ∷ 128 ∷ [])
    ∷ (226 ∷ 128 ∷ 128 ∷ [])
    ∷ (226 ∷ 128 ∷ 129 ∷ [])
    ∷ (226 ∷ 128 ∷ 130 ∷ [])
    ∷ (226 ∷ 128 ∷ 131 ∷ [])
    ∷ (226 ∷ 128 ∷ 132 ∷ [])
    ∷ (226 ∷ 128 ∷ 133 ∷ [])
    ∷ (226 ∷ 128 ∷ 134 ∷ [])
    ∷ (226 ∷ 128 ∷ 135 ∷ [])
    ∷ (226 ∷ 128 ∷ 136 ∷ [])
    ∷ (226 ∷ 128 ∷ 137 ∷ [])
    ∷ (226 ∷ 128 ∷ 138 ∷ [])
    ∷ (226 ∷ 128 ∷ 168 ∷ [])
    ∷ (226 ∷ 128 ∷ 169 ∷ [])
    ∷ (226 ∷ 128 ∷ 175 ∷ [])
    ∷ (226 ∷ 129 ∷ 159 ∷ [])
    ∷ (227 ∷ 128 ∷ 128 ∷ [])
    ∷ []

abbrev pub drop_prefix : List ℕ → List ℕ → Option (List ℕ)
drop_prefix [] xs = some xs
drop_prefix (p ∷ ps) [] = none
drop_prefix (p ∷ ps) (x ∷ xs) = if p == x then drop_prefix ps xs else none

abbrev pub drop_space : List (List ℕ) → List ℕ → Option (List ℕ)
drop_space [] xs = none
drop_space (p ∷ ps) xs = elim (drop_prefix p xs) [ none ↦ drop_space ps xs | some rest ↦ some rest ]

unfoldable pub trim_left : List (List ℕ) → ℕ → List ℕ → List ℕ
trim_left table zero xs = xs
trim_left table (suc n) xs = elim (drop_space table xs) [
  | none ↦ xs
  | some rest ↦ trim_left table n rest
]

unfoldable pub trim_space : List ℕ → List ℕ
unfolding trim_left
trim_space v =
    let front = trim_left spaces (length v) v in
    reverse (trim_left (map reverse spaces) (length front) (reverse front))

-- `strconv.ParseInt` to base 10 with 64 bits.
unfoldable pub digits_value : ℕ → List ℕ → Option ℕ
digits_value x [] = some x
digits_value x (c ∷ cs) = if leb 48 c && leb c 57 then digits_value (x * 10 + (c - 48)) cs else none

abbrev pub unsigned : List ℕ → Option ℕ
unsigned [] = none
unsigned (c ∷ cs) = digits_value 0 (c ∷ cs)

abbrev pub not_above : Option ℕ → Option ℤ
not_above none = none
not_above (some x) = if ltb x (2 ^ 63) then some (pos x) else none

abbrev pub negated : ℕ → ℤ
negated zero = pos 0
negated (suc x) = negsuc x

abbrev pub not_below : Option ℕ → Option ℤ
not_below none = none
not_below (some x) = if leb x (2 ^ 63) then some (negated x) else none

unfoldable pub parse_int : List ℕ → Option ℤ
unfolding digits_value
parse_int [] = none
parse_int (c ∷ cs) =
    if c == 45
    then not_below (unsigned cs)
    else if c == 43
    then not_above (unsigned cs)
    else not_above (unsigned (c ∷ cs))

-- `strconv.FormatInt` to base 10: 20 digits are enough for 64 bits.
unfoldable pub decimal : ℕ → ℕ → List ℕ → List ℕ
decimal zero x cs = cs
decimal (suc n) x cs =
    let longer = decimal n (x / 10) ((48 + x % 10) ∷ cs) in
    if ltb x 10 then (48 + x) ∷ cs else longer

unfoldable pub format_int : ℤ → List ℕ
unfolding decimal
format_int (pos x) = decimal 20 x []
format_int (negsuc x) = 45 ∷ decimal 20 (x + 1) []

-- `binary.LittleEndian`, with two's complement.
unfoldable pub le_bytes : ℕ → ℕ → List ℕ
le_bytes zero w = []
le_bytes (suc n) w = (w % 256) ∷ le_bytes n (w / 256)

unfoldable pub le_value : List ℕ → ℕ
le_value [] = 0
le_value (b ∷ bs) = b + 256 * le_value bs

abbrev pub to_word : ℤ → ℕ
to_word (pos x) = x % 2 ^ 64
to_word (negsuc x) = 2 ^ 64 - 1 - x % 2 ^ 64

abbrev pub from_word : ℕ → ℤ
from_word w = if ltb w (2 ^ 63) then pos w else negsuc (2 ^ 64 - 1 - w)

abbrev pub is_zero : ℤ → Bool
is_zero (pos x) = x == 0
is_zero (negsuc x) = false

-- The bytes that were written, and whether there is no error.
abbrev pub write_size : ℕ → Option ℤ → List ℕ × Bool
write_size tag none = ((tag % 256) ∷ [], false)
write_size tag (some z) =
    if is_zero z then ((tag % 256) ∷ [], true) else ((tag % 256) ∷ le_bytes 8 (to_word z), true)

abbrev pub is_text_zero : List ℕ → Bool
is_text_zero [] = false
is_text_zero (c ∷ []) = c == 48
is_text_zero (c ∷ d ∷ cs) = false

abbrev pub write_value : ℕ → List ℕ → List ℕ × Bool
write_value tag [] = ([], true)
write_value tag (c ∷ cs) =
    if is_binary tag
    then (if is_text_zero (c ∷ cs) then ([], true) else write_size tag (parse_int (c ∷ cs)))
    else ((tag % 256) ∷ (le_bytes 2 (length (c ∷ cs) % 2 ^ 16) ++ (c ∷ cs)), true)

unfoldable pub write : Field → List ℕ × Bool
unfolding trim_space parse_int le_bytes
write f = write_value f.tag (trim_space f.value)

-- What a read gives: the field and the rest of the stream, no field at its end, or an error.
pub data ReadResult : Type 0 where
  field : Field → List ℕ → ReadResult
  at_end : ReadResult
  fails : ReadResult

abbrev pub read_size : ℕ → List ℕ → ReadResult
read_size tag bs =
    if leb 8 (length bs)
    then field (record { tag = tag; value = format_int (from_word (le_value (take 8 bs))) })
        (drop 8 bs)
    else fails

abbrev pub read_text : ℕ → ℕ → List ℕ → ReadResult
read_text tag n bs =
    if leb n (length bs) then field (record { tag = tag; value = take n bs }) (drop n bs) else fails

unfoldable pub read_value : ℕ → List ℕ → ReadResult
unfolding format_int le_value
read_value t bs =
    if is_binary t
    then read_size t bs
    else if leb 2 (length bs)
    then read_text t (le_value (take 2 bs)) (drop 2 bs)
    else fails

unfoldable pub read_field : List ℕ → ReadResult
unfolding read_value
read_field [] = at_end
read_field (t ∷ bs) = if length bs == 0 then at_end else read_value t bs
