-- ===== src/ReadAhead/Content.antt =====
-- What the reads answer while the chunks that are put hold bytes of their file.
use Prim.Native.String.{String}
use gostream.Prelude.{
  ℕ, ◌+◌, ◌-◌, ◌≤◌, leb, ◌≡◌, refl, ap, ap₂, sym, ◌∙◌, if_of_true, true, ◌&&◌, List, Option, some,
  length, take, drop, replicate, length-replicate, inl, inr, arith, ◌⊎◌,
}
use gostream.ReadAhead.{
  RaBuffer, Found, nothing, short, one, two, Answer, miss, hit, slice, get_found, copy_found,
  stitch, copy_one, copy_two, dest_one, dest_two,
}
use gostream.ReadAhead.Bytes.{
  file_bytes, length-file_bytes, take-file_bytes, drop-file_bytes, append-file_bytes, stitch_fills,
  copy_fills,
}
use gostream.ReadAhead.Cover.{IsHonest, Covers}

module _ (content : String → ℕ → ℕ) where
  slice_lem :
      (p : String) (b : RaBuffer) (off end lo hi : ℕ)
      → IsHonest content p b
      → b.start ≤ off
      → off ≤ end
      → end ≤ b.end
      → lo ≡ off - b.start
      → hi ≡ end - b.start + 1
      → slice b.bytes lo hi ≡ some (file_bytes (content p) off (end - off + 1))
  slice_lem p b off end lo hi h l m r el eh =
      if_of_true _ _ bounds
      ∙ ap some (
          ap (λ xs. take (hi - lo) (drop lo xs)) h.1
          ∙ ap (take (hi - lo)) (drop-file_bytes f b.start size lo (omega arith))
          ∙ take-file_bytes f (b.start + lo) (size - lo) (hi - lo) (omega arith)
          ∙ ap₂ (file_bytes f) (omega arith) (omega arith))
    where
      f : ℕ → ℕ
      f = content p

      size : ℕ
      size = b.end + 1 - b.start

      has : length b.bytes ≡ size
      has = ap length h.1 ∙ length-file_bytes f b.start size

      bounds : (leb lo hi && leb hi (length b.bytes)) ≡ true
      bounds = ground (arith, has)

  -- A miss, or the bytes of the file: in a slice of its own, or in the destination.
  abbrev pub IsAnswer : String → ℕ → ℕ → List ℕ → Answer → Option (List ℕ × ℕ) → Type 0
  IsAnswer p off end dest a c =
      ((a ≡ miss) × (c ≡ some (dest, 0)))
      ⊎ ((a ≡ hit (file_bytes (content p) off (end - off + 1)))
          × (c ≡ some (file_bytes (content p) off (end - off + 1), end - off + 1)))

  dest_one_lem :
      (dest : List ℕ) (f : ℕ → ℕ) (off n : ℕ)
      → length dest ≡ n
      → dest_one dest (some (file_bytes f off n)) ≡ some (file_bytes f off n, n)
  dest_one_lem dest f off n e =
      let has = length-file_bytes f off n in
      let (same, count) = copy_fills dest (file_bytes f off n) (e ∙ sym has) in
      ap₂ (λ (u : List ℕ) (k : ℕ). some (u, k)) same (count ∙ has)

  pub found-IsAnswer :
      (p : String) (off end : ℕ) (dest : List ℕ) (f : Found)
      → off ≤ end
      → length dest ≡ end - off + 1
      → Covers content p off end f
      → IsAnswer p off end dest (get_found off end f) (copy_found off end dest f)
  unfolding get_found copy_found
  found-IsAnswer p off end dest nothing m d h = inl (refl, refl)
  found-IsAnswer p off end dest short m d h = inl (refl, refl)
  found-IsAnswer p off end dest (one b) m d (h, l, r) =
      let e = slice_lem p b off end (off - b.start) (end - b.start + 1) h l m r refl refl in
      inr (ap copy_one e, ap (dest_one dest) e ∙ dest_one_lem dest (content p) off _ d)
  found-IsAnswer p off end dest (two b c) m d (h, g, l, m', s, e, r) = inr (
    ap₂ (copy_two (end - off + 1)) first second
        ∙ ap (λ (x : List ℕ × ℕ). hit x.0)
            (filled (replicate (end - off + 1) 0) (length-replicate _ 0)),
    ap₂ (dest_two dest) first second ∙ ap some (filled dest d),
  )
    where
      f : ℕ → ℕ
      f = content p

      x : List ℕ
      x = file_bytes f off (b.end - off + 1)

      y : List ℕ
      y = file_bytes f c.start (end - c.start + 1)

      has : length b.bytes ≡ b.end - b.start + 1
      has = omega (arith, ap length h.1 ∙ length-file_bytes f b.start (b.end + 1 - b.start), h.0)

      first : slice b.bytes (off - b.start) (length b.bytes) ≡ some x
      first = slice_lem p b off b.end (off - b.start) (length b.bytes) h l m' (omega arith) refl has

      second : slice c.bytes 0 (end - c.start + 1) ≡ some y
      second =
          slice_lem p c c.start end 0 (end - c.start + 1) g (omega arith) (omega arith) r
            (omega arith) refl

      sizes : (length x ≡ b.end - off + 1) × (length y ≡ end - c.start + 1)
      sizes = (length-file_bytes f off _, length-file_bytes f c.start _)

      filled :
          (out : List ℕ)
          → length out ≡ end - off + 1
          → stitch out x y ≡ (file_bytes f off (end - off + 1), end - off + 1)
      filled out n =
          stitch_fills out x y (omega (arith, sizes))
          ∙ ap₂ (λ (u : List ℕ) (v : ℕ). (u, v))
              (append-file_bytes f off (b.end - off + 1) c.start (end - c.start + 1) (omega arith)
                ∙ ap (file_bytes f off) (omega arith))
              (omega (arith, sizes))
