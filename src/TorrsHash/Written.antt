-- ===== src/TorrsHash/Written.antt =====
-- fields.go: what is read of a field that was written.
use gostream.Prelude.{
  ℕ, zero, suc, ◌-◌, ◌/◌, ◌%◌, ◌^◌, ◌==◌, ◌<◌, ltb, leb, ◌≡◌, refl, ap, ap₂, sym, ◌∙◌, subst,
  if_of_true, if_of_false, Bool-cases, Bool, true, false, List, [], ◌∷◌, ◌++◌, Option, none, some,
  length, ℤ, pos, negsuc, arith, All, inl, inr, ◌⊎◌, length-append,
}
use mathlib.Core.List.{append_assoc}
use gostream.Torrstor.Piece.Bytes.{take-append, drop-append}
use gostream.TorrsHash.Digits.{power256, IsByte}
use gostream.TorrsHash.Fields.{
  Field, tag_size, is_binary, trim_space, parse_int, unsigned, not_above, not_below, negated,
  format_int, le_bytes, le_value, to_word, from_word, is_zero, write_size, write_value,
  is_text_zero, write, field, read_text, read_value, read_field, fails,
}

length-le_bytes : (n w : ℕ) → length (le_bytes n w) ≡ n
unfolding le_bytes
length-le_bytes zero w = refl
length-le_bytes (suc n) w = ap suc (length-le_bytes n (w / 256))

le_bytes-bytes : (n w : ℕ) → All IsByte (le_bytes n w)
unfolding le_bytes
le_bytes-bytes zero w = tt
le_bytes-bytes (suc n) w = (omega arith, le_bytes-bytes n (w / 256))

pub All_append : (P : ℕ → Type 0) (xs ys : List ℕ) → All P xs → All P ys → All P (xs ++ ys)
All_append P [] ys a b = b
All_append P (x ∷ xs) ys a b = (a.0, All_append P xs ys a.1 b)

le_value-le_bytes : (n w : ℕ) → w < power256 n → le_value (le_bytes n w) ≡ w
unfolding le_bytes le_value power256
le_value-le_bytes zero w h = omega arith
le_value-le_bytes (suc n) w h = omega (arith, le_value-le_bytes n (w / 256) (omega arith))

-- The integers of 64 bits.
abbrev InRange : ℤ → Type 0
InRange (pos x) = x < 2 ^ 63
InRange (negsuc x) = x < 2 ^ 63

from_word-to_word : (z : ℤ) → InRange z → from_word (to_word z) ≡ z
from_word-to_word (pos x) h =
    let same : x % 2 ^ 64 ≡ x = omega arith in
    if_of_true {b = ltb (x % 2 ^ 64) (2 ^ 63)} _ _ (ground (arith, same)) ∙ ap pos same
from_word-to_word (negsuc x) h =
    let same : x % 2 ^ 64 ≡ x = omega arith in
    if_of_false {b = ltb (2 ^ 64 - 1 - x % 2 ^ 64) (2 ^ 63)} _ _ (ground (arith, same))
    ∙ ap negsuc (omega (arith, same))

not_above-InRange : (o : Option ℕ) (z : ℤ) → not_above o ≡ some z → InRange z
not_above-InRange none z e = absurd cc
not_above-InRange (some x) z e = elim (Bool-cases (ltb x (2 ^ 63))) [
  | inl t ↦ subst InRange (some_inj (sym (if_of_true _ _ t) ∙ e)) (ground (arith, t))
  | inr t ↦ absurd (none_some (sym (if_of_false _ _ t) ∙ e))
]
  where
    some_inj : {x y : ℤ} → some x ≡ some y → x ≡ y
    some_inj e = cc

    none_some : {y : ℤ} → none ≡ some y → ⊥
    none_some e = cc

not_below-InRange : (o : Option ℕ) (z : ℤ) → not_below o ≡ some z → InRange z
not_below-InRange none z e = absurd cc
not_below-InRange (some x) z e = elim (Bool-cases (leb x (2 ^ 63))) [
  | inl t ↦ subst InRange (some_inj (sym (if_of_true _ _ t) ∙ e)) (low x t)
  | inr t ↦ absurd (none_some (sym (if_of_false _ _ t) ∙ e))
]
  where
    some_inj : {x y : ℤ} → some x ≡ some y → x ≡ y
    some_inj e = cc

    none_some : {y : ℤ} → none ≡ some y → ⊥
    none_some e = cc

    low : (x : ℕ) → leb x (2 ^ 63) ≡ true → InRange (negated x)
    low zero t = omega arith
    low (suc x) t = ground (arith, t)

parse_int-InRange : (v : List ℕ) (z : ℤ) → parse_int v ≡ some z → InRange z
unfolding parse_int
parse_int-InRange [] z e = absurd cc
parse_int-InRange (c ∷ cs) z e = elim (Bool-cases (c == 45)) [
  | inl t ↦ not_below-InRange (unsigned cs) z (sym (if_of_true _ _ t) ∙ e)
  | inr t ↦ elim (Bool-cases (c == 43)) [
    | inl u ↦
        not_above-InRange (unsigned cs) z (sym (if_of_true _ _ u) ∙ sym (if_of_false _ _ t) ∙ e)
    | inr u ↦
        not_above-InRange (unsigned (c ∷ cs)) z
          (sym (if_of_false _ _ u) ∙ sym (if_of_false _ _ t) ∙ e)
  ]
]

-- A text that is trimmed, not empty, and short enough for its length to be written.
abbrev pub IsText : Field → Type 0
IsText f =
    (is_binary f.tag ≡ false)
    × (f.tag < 256)
    × (trim_space f.value ≡ f.value)
    × (0 < length f.value)
    × (length f.value < 65_536)
    × All IsByte f.value

-- A size that is not 0, in the form in which it is read.
abbrev pub IsSize : Field → Type 0
IsSize f =
    (f.tag ≡ tag_size)
    × (trim_space f.value ≡ f.value)
    × (is_text_zero f.value ≡ false)
    × ((z : ℤ) × (parse_int f.value ≡ some z) × (is_zero z ≡ false) × (format_int z ≡ f.value))

-- A field is read back in front of whatever follows it.
abbrev pub IsReadBack : Field → List ℕ × Bool → Type 0
IsReadBack f w =
    (w.1 ≡ true)
    × (0 < length w.0)
    × All IsByte w.0
    × ((rest : List ℕ) → read_field (w.0 ++ rest) ≡ field f rest)

read_text_lem :
    (tag : ℕ) (v rest : List ℕ)
    → read_text tag (length v) (v ++ rest) ≡ field (record { tag = tag; value = v }) rest
read_text_lem tag v rest =
    if_of_true {b = leb (length v) (length (v ++ rest))} _ _ (ground (arith, length-append v rest))
    ∙ ap₂ (λ (a b : List ℕ). field (record { tag = tag; value = a }) b)
        (take-append v rest (length v) refl) (drop-append v rest (length v) refl)

read_field-read_value :
    (t : ℕ) (bs : List ℕ) → 0 < length bs → read_field (t ∷ bs) ≡ read_value t bs
unfolding read_field
read_field-read_value t bs h = if_of_false {b = length bs == 0} _ _ (ground arith)

read_field-text :
    (tag : ℕ) (ws v rest : List ℕ)
    → is_binary tag ≡ false
    → length ws ≡ 2
    → le_value ws ≡ length v
    → read_field (tag ∷ (ws ++ (v ++ rest))) ≡ field (record { tag = tag; value = v }) rest
unfolding read_value
read_field-text tag ws v rest b n e =
    read_field-read_value tag (ws ++ (v ++ rest)) (ground (arith, n, length-append ws (v ++ rest)))
    ∙ if_of_false {b = is_binary tag} _ _ b
    ∙ if_of_true {b = leb 2 (length (ws ++ (v ++ rest)))} _ _
        (ground (arith, n, length-append ws (v ++ rest)))
    ∙ ap₂ (read_text tag) (ap le_value (take-append ws (v ++ rest) 2 n) ∙ e)
        (drop-append ws (v ++ rest) 2 n)
    ∙ read_text_lem tag v rest

text-IsReadBack :
    (tag : ℕ) (v : List ℕ)
    → is_binary tag ≡ false
    → tag < 256
    → 0 < length v
    → length v < 65_536
    → All IsByte v
    → IsReadBack (record { tag = tag; value = v }) (write_value tag v)
unfolding power256
text-IsReadBack tag [] b t l m a = absurd (omega arith)
text-IsReadBack tag (c ∷ cs) b t l m a =
    subst (IsReadBack (record { tag = tag; value = c ∷ cs })) (sym (if_of_false _ _ b)) (
      refl,
      omega (arith, length-append ws (c ∷ cs)),
      (omega arith, All_append IsByte ws (c ∷ cs) (le_bytes-bytes 2 _) a),
      λ rest.
          ap (λ xs. read_field ((tag % 256) ∷ xs)) (append_assoc ws (c ∷ cs) rest)
          ∙ ap (λ k. read_field (k ∷ (ws ++ ((c ∷ cs) ++ rest)))) (omega arith)
          ∙ read_field-text tag ws (c ∷ cs) rest b (length-le_bytes 2 _)
              (le_value-le_bytes 2 (length (c ∷ cs) % 2 ^ 16) (omega arith) ∙ omega arith),
    )
  where
    ws : List ℕ
    ws = le_bytes 2 (length (c ∷ cs) % 2 ^ 16)

to_word-bounded : (z : ℤ) → to_word z < power256 8
unfolding power256
to_word-bounded (pos x) = omega arith
to_word-bounded (negsuc x) = omega arith

read_field-size :
    (z : ℤ) (rest : List ℕ)
    → InRange z
    → read_field (tag_size ∷ (le_bytes 8 (to_word z) ++ rest))
      ≡ field (record { tag = tag_size; value = format_int z }) rest
unfolding read_value
read_field-size z rest h =
    read_field-read_value tag_size (ws ++ rest)
      (ground (arith, length-append ws rest, length-le_bytes 8 (to_word z)))
    ∙ if_of_true {b = leb 8 (length (ws ++ rest))} _ _
        (ground (arith, length-append ws rest, length-le_bytes 8 (to_word z)))
    ∙ ap₂
        (λ (a b : List ℕ).
          field (record { tag = tag_size; value = format_int (from_word (le_value a)) }) b)
        (take-append ws rest 8 (length-le_bytes 8 (to_word z)))
        (drop-append ws rest 8 (length-le_bytes 8 (to_word z)))
    ∙ ap (λ w. field (record { tag = tag_size; value = format_int (from_word w) }) rest)
        (le_value-le_bytes 8 (to_word z) (to_word-bounded z))
    ∙ ap (λ y. field (record { tag = tag_size; value = format_int y }) rest) (from_word-to_word z h)
  where
    ws : List ℕ
    ws = le_bytes 8 (to_word z)

parse_int-nil : (z : ℤ) → parse_int [] ≡ some z → ⊥
unfolding parse_int
parse_int-nil z e = cc

size-IsReadBack :
    (v : List ℕ) (z : ℤ)
    → is_text_zero v ≡ false
    → parse_int v ≡ some z
    → is_zero z ≡ false
    → format_int z ≡ v
    → IsReadBack (record { tag = tag_size; value = v }) (write_value tag_size v)
size-IsReadBack [] z n e y f = absurd (parse_int-nil z e)
size-IsReadBack (c ∷ cs) z n e y f =
    subst (IsReadBack (record { tag = tag_size; value = c ∷ cs })) (sym written) (
      refl,
      omega arith,
      (omega arith, le_bytes-bytes 8 (to_word z)),
      λ rest.
          read_field-size z rest (parse_int-InRange (c ∷ cs) z e)
          ∙ ap (λ v. field (record { tag = tag_size; value = v }) rest) f,
    )
  where
    written : write_value tag_size (c ∷ cs) ≡ ((tag_size % 256) ∷ le_bytes 8 (to_word z), true)
    written =
        if_of_false {b = is_text_zero (c ∷ cs)} _ _ n
        ∙ ap (write_size tag_size) e
        ∙ if_of_false {b = is_zero z} _ _ y

write_value-zero :
    (v : List ℕ) (z : ℤ)
    → is_text_zero v ≡ false
    → parse_int v ≡ some z
    → is_zero z ≡ true
    → write_value tag_size v ≡ (tag_size ∷ [], true)
write_value-zero [] z n e y = absurd (parse_int-nil z e)
write_value-zero (c ∷ cs) z n e y =
    if_of_false {b = is_text_zero (c ∷ cs)} _ _ n
    ∙ ap (write_size tag_size) e
    ∙ if_of_true {b = is_zero z} _ _ y

-- A field that holds a trimmed text of 1 to 65535 bytes, or a size that is not 0 in the form in which
-- it is read, is written without an error, and reading in front of any further bytes gives it back.
pub read_field-write : (f : Field) → IsText f ⊎ IsSize f → IsReadBack f (write f)
unfolding write
read_field-write f (inl (b, t, same, l, m, a)) =
    subst (λ v. IsReadBack f (write_value f.tag v)) (sym same)
      (text-IsReadBack f.tag f.value b t l m a)
read_field-write f (inr (t, same, n, (z, e, y, w))) =
    subst (λ v. IsReadBack f (write_value f.tag v)) (sym same)
      (subst (λ k. IsReadBack (record { tag = k; value = f.value }) (write_value k f.value)) (sym t)
        (size-IsReadBack f.value z n e y w))

-- A size whose text is not "0" but is read as 0, such as "00" or "+0", is written as its tag alone and
-- without an error: reading fails, if one to seven bytes follow.
read_field-write_zero :
    (f : Field) (z : ℤ) (rest : List ℕ)
    → f.tag ≡ tag_size
    → is_text_zero (trim_space f.value) ≡ false
    → parse_int (trim_space f.value) ≡ some z
    → is_zero z ≡ true
    → 0 < length rest
    → length rest < 8
    → (write f ≡ (tag_size ∷ [], true)) × (read_field ((write f).0 ++ rest) ≡ fails)
unfolding write read_value
read_field-write_zero f z rest t n e y o l =
    let w : write f ≡ (tag_size ∷ [], true) =
      ap (λ k. write_value k (trim_space f.value)) t
      ∙ write_value-zero (trim_space f.value) z n e y in
    (
      w,
      ap (λ (x : List ℕ × Bool). read_field (x.0 ++ rest)) w
          ∙ read_field-read_value tag_size rest o
          ∙ if_of_false {b = leb 8 (length rest)} _ _ (ground arith),
    )
