-- ===== src/TorrsHash/Packed.antt =====
-- pack.go: what is unpacked of what was packed.
use gostream.Prelude.{
  ℕ, zero, suc, ◌+◌, ◌/◌, ◌%◌, ◌≤◌, ◌<◌, ltb, leb, ◌≡◌, refl, ap, ap₂, sym, ◌∙◌, if_of_true,
  if_of_false, Bool-cases, Bool, true, ◌&&◌, List, [], ◌∷◌, ◌++◌, Option, some, length, arith, inl,
  inr, ◌⊎◌, All, length-append,
}
use gostream.Torrstor.Piece.Bytes.{take-append, drop-append}
use gostream.TorrsHash.Digits.{IsByte}
use gostream.TorrsHash.Fields.{Field, trim_space, write, field, read_field}
use gostream.TorrsHash.Written.{IsText, IsSize, read_field-write, All_append}
use gostream.TorrsHash.Pack.{
  TorrsHash, hex_digit, hex_pair, if_some, hex_decode, hex_char, hex_encode, then_fields,
  write_fields, read_fields, unpacked, unpack_stream, deflated, pack_bytes, inflated, unpack_bytes,
}

hex_digit-hex_char : (d : ℕ) → d < 16 → hex_digit (hex_char d) ≡ some d
unfolding hex_digit
hex_digit-hex_char d h = elim (Bool-cases (ltb d 10)) [
  | inl t ↦ rw t (
      if_of_true {b = leb 48 (48 + d) && leb (48 + d) 57} _ _ (ground (arith, t))
      ∙ ap some (omega arith))
  | inr t ↦ rw t (
      if_of_false {b = leb 48 (87 + d) && leb (87 + d) 57} _ _ (ground (arith, t))
      ∙ if_of_true {b = leb 97 (87 + d) && leb (87 + d) 102} _ _ (ground (arith, t))
      ∙ ap some (omega arith))
]

hex_decode-hex_encode : (bs : List ℕ) → All IsByte bs → hex_decode (hex_encode bs) ≡ bs
unfolding hex_decode hex_encode
hex_decode-hex_encode [] a = refl
hex_decode-hex_encode (b ∷ bs) a =
    ap₂ (λ x y. if_some (hex_pair x y) (hex_decode (hex_encode bs)))
      (hex_digit-hex_char (b / 16) (omega (arith, a.0))) (hex_digit-hex_char (b % 16) (omega arith))
    ∙ ap₂ ◌∷◌ (omega arith) (hex_decode-hex_encode bs a.1)

-- Fields that are read back one by one.
abbrev pub IsWritable : Field → Type 0
IsWritable f = IsText f ⊎ IsSize f

read_next :
    (n : ℕ) (bs : List ℕ) (f : Field) (rest : List ℕ) (fs : List Field)
    → read_field bs ≡ field f rest
    → read_fields n rest ≡ (fs, true)
    → read_fields (suc n) bs ≡ (f ∷ fs, true)
unfolding read_fields
read_next n bs f rest fs e h =
    rw (e, read_fields) (ap (λ (x : List Field × Bool). (f ∷ x.0, x.1)) h)

-- One round more than the length, counted from one.
from_one : (P : ℕ → Type 0) (k : ℕ) → ((n : ℕ) → k ≤ n → P (suc n)) → (n : ℕ) → k < n → P n
from_one P k h zero l = absurd (omega arith)
from_one P k h (suc n) l = h n (omega arith)

-- The loop of `pack`, and that of `unpack` on what it wrote.
read_fields-write_fields :
    (fs : List Field)
    → All IsWritable fs
    → (bs : List ℕ) × (write_fields fs ≡ some bs)
      × All IsByte bs
      × ((n : ℕ) → length bs ≤ n → read_fields (suc n) bs ≡ (fs, true))
unfolding write_fields read_fields
read_fields-write_fields [] a = ([], refl, tt, λ n h. refl)
read_fields-write_fields (f ∷ fs) a =
    let (rest, wrote, in_bytes, reads) = read_fields-write_fields fs a.1 in
    let (fine, some_bytes, tagged, back) = read_field-write f a.0 in
    (
      (write f).0 ++ rest,
      ap₂ then_fields (ap (λ (b : Bool). ((write f).0, b)) fine) wrote,
      All_append IsByte (write f).0 rest tagged in_bytes,
      λ n h. read_next n ((write f).0 ++ rest) f rest fs (back rest) (
          from_one (λ k. read_fields k rest ≡ (fs, true)) (length rest) reads n
            (omega (arith, some_bytes, length-append (write f).0 rest, h))),
    )

-- A hash of 40 lower-case hexadecimal digits, with fields that are read back.
pub record IsPackable (th : TorrsHash) : Type 0 where
  pub bytes : List ℕ
  pub twenty : length bytes ≡ 20
  pub in_bytes : All IsByte bytes
  pub digits : th.hash ≡ hex_encode bytes
  pub trimmed : trim_space th.hash ≡ th.hash
  pub writable : All IsWritable th.fields

unpack_stream_lem :
    (hash bs : List ℕ) (fs : List Field)
    → length hash ≡ 20
    → ((n : ℕ) → length bs ≤ n → read_fields (suc n) bs ≡ (fs, true))
    → unpack_stream (hash ++ bs) ≡ unpacked (record { hash = hex_encode hash; fields = fs }) true
unfolding unpack_stream
unpack_stream_lem hash bs fs n h =
    if_of_true {b = leb 20 (length (hash ++ bs))} _ _ (ground (arith, n, length-append hash bs))
    ∙ ap₂
        (λ (k : List ℕ) (x : List Field × Bool).
          unpacked (record { hash = hex_encode k; fields = x.0 }) x.1)
        (take-append hash bs 20 n)
        (ap (read_fields (suc (length (hash ++ bs)))) (drop-append hash bs 20 n)
          ∙ h (length (hash ++ bs)) (omega (arith, length-append hash bs)))

module _ (deflate : List ℕ → List ℕ) (inflate : List ℕ → Option (List ℕ)) where
  -- `PackBytes` deflates some bytes, and `UnpackBytes` of that gives the hash with all its fields and no
  -- error.
  pub unpack_bytes-pack_bytes :
      (th : TorrsHash)
      → ((bs : List ℕ) → All IsByte bs → inflate (deflate bs) ≡ some bs)
      → IsPackable th
      → (bs : List ℕ) × All IsByte bs
        × (pack_bytes deflate th ≡ some (deflate bs))
        × (unpack_bytes inflate (deflate bs) ≡ unpacked th true)
  unfolding pack_bytes unpack_bytes
  unpack_bytes-pack_bytes th zlib p =
      let (bs, wrote, in_bytes, reads) = read_fields-write_fields th.fields p.writable in
      let hash : hex_decode (trim_space th.hash) ≡ p.bytes =
        ap hex_decode (p.trimmed ∙ p.digits) ∙ hex_decode-hex_encode p.bytes p.in_bytes in
      let all = All_append IsByte p.bytes bs p.in_bytes in_bytes in
      (
        p.bytes ++ bs,
        all,
        ap₂ (deflated deflate) hash wrote,
        ap inflated (zlib (p.bytes ++ bs) all)
            ∙ unpack_stream_lem p.bytes bs th.fields p.twenty reads
            ∙ ap (λ k. unpacked (record { hash = k; fields = th.fields }) true) (sym p.digits),
      )
