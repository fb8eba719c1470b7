-- ===== src/ReadAhead/Cover.antt =====
-- What a read finds among chunks that hold bytes of their file.
use Prim.Native.String.{String}
use text.Mathlib.TextEquality.{eq_iff}
use gostream.Prelude.{
  ℕ, suc, ◌+◌, ◌-◌, ◌≤◌, ◌==◌, leb, leb→le, ==_iff, ◌≡◌, refl, subst, sym, ◌∙◌, if_of_true,
  if_of_false, Bool-cases, true, ◌&&◌, List, [], ◌∷◌, Option, none, some, All, inl, inr, arith,
  tests,
}
use gostream.ReadAhead.{
  Config, ChunkKey, RaBuffer, Found, nothing, short, one, two, key_eq, find_buffer, ra_chunk_key,
  locate_next, locate_in, locate,
}
use gostream.ReadAhead.Bytes.{file_bytes}

module _ (content : String → ℕ → ℕ) where
  -- A buffer holds the bytes of the file at the path from `start` to `end`.
  abbrev pub IsHonest : String → RaBuffer → Type 0
  IsHonest p b =
      (b.start ≤ b.end) × (b.bytes ≡ file_bytes (content p) b.start (b.end + 1 - b.start))

  abbrev pub IsHonestChunk : ChunkKey × RaBuffer → Type 0
  IsHonestChunk (k, b) = IsHonest k.path b

  same_path : (j k : ChunkKey) → key_eq j k ≡ true → j.path ≡ k.path
  same_path j k e = ground (arith, eq_iff j.path k.path)

  find_buffer-IsHonest :
      (k : ChunkKey) (bs : List (ChunkKey × RaBuffer)) (b : RaBuffer)
      → All IsHonestChunk bs
      → find_buffer k bs ≡ some b
      → IsHonest k.path b
  unfolding find_buffer
  find_buffer-IsHonest k [] b h e = absurd cc
  find_buffer-IsHonest k ((j, c) ∷ bs) b h e = elim (Bool-cases (key_eq j k)) [
    | inl t ↦
        subst (IsHonest k.path) (some_inj (sym (if_of_true _ _ t) ∙ e))
          (subst (λ p. IsHonest p c) (same_path j k t) h.0)
    | inr t ↦ find_buffer-IsHonest k bs b h.1 (sym (if_of_false _ _ t) ∙ e)
  ]
    where
      some_inj : {x y : RaBuffer} → some x ≡ some y → x ≡ y
      some_inj e = cc

  -- The chunks that a read of `off` to `end` found cover it.
  abbrev pub Covers : String → ℕ → ℕ → Found → Type 0
  Covers p off end nothing = Unit
  Covers p off end short = Unit
  Covers p off end (one b) = IsHonest p b × (b.start ≤ off) × (end ≤ b.end)
  Covers p off end (two b c) =
      IsHonest p b
      × IsHonest p c
      × (b.start ≤ off)
      × (off ≤ b.end)
      × (suc b.end ≤ end)
      × (c.start ≡ b.end + 1)
      × (end ≤ c.end)

  locate_next-Covers :
      (cfg : Config) (bs : List (ChunkKey × RaBuffer)) (p : String) (b : RaBuffer) (off end : ℕ)
      (o : Option RaBuffer)
      → IsHonest p b
      → b.start ≤ off
      → off ≤ b.end
      → suc b.end ≤ end
      → ((c : RaBuffer) → o ≡ some c → IsHonest p c)
      → Covers p off end (locate_next cfg bs p b end o)
  unfolding locate_next
  locate_next-Covers cfg bs p b off end none h l r s g = tt
  locate_next-Covers cfg bs p b off end (some c) h l r s g =
      elim (Bool-cases (c.start == b.end + 1 && leb end c.end)) [
        | inl t ↦
            subst (Covers p off end) (sym (if_of_true _ _ t))
              (h, g c refl, l, r, s, grind (tests, ==_iff), grind tests)
        | inr t ↦ subst (Covers p off end) (sym (if_of_false _ _ t)) tt
      ]

  locate_in-Covers :
      (cfg : Config) (bs : List (ChunkKey × RaBuffer)) (p : String) (off end : ℕ)
      (o : Option RaBuffer)
      → All IsHonestChunk bs
      → ((c : RaBuffer) → o ≡ some c → IsHonest p c)
      → Covers p off end (locate_in cfg bs p off end o)
  unfolding locate_in
  locate_in-Covers cfg bs p off end none a g = tt
  locate_in-Covers cfg bs p off end (some b) a g =
      elim (Bool-cases (leb b.start off && leb off b.end)) [
        | inr t ↦ subst (Covers p off end) (sym (if_of_false _ _ t)) tt
        | inl t ↦
            subst (Covers p off end) (sym (if_of_true _ _ t)) (elim (Bool-cases (leb end b.end)) [
              | inl u ↦
                  subst (Covers p off end) (sym (if_of_true _ _ u))
                    (g b refl, grind tests, leb→le end b.end u)
              | inr u ↦ subst (Covers p off end) (sym (if_of_false _ _ u)) (
                  locate_next-Covers cfg bs p b off end (find_buffer (ra_chunk_key cfg p end) bs)
                    (g b refl) (grind tests) (grind tests) (grind tests)
                    (λ c e. find_buffer-IsHonest (ra_chunk_key cfg p end) bs c a e))
            ])
      ]

  pub locate-Covers :
      (cfg : Config) (bs : List (ChunkKey × RaBuffer)) (p : String) (off end : ℕ)
      → All IsHonestChunk bs
      → Covers p off end (locate cfg bs p off end)
  unfolding locate
  locate-Covers cfg bs p off end a =
      locate_in-Covers cfg bs p off end (find_buffer (ra_chunk_key cfg p off) bs) a
        (λ c e. find_buffer-IsHonest (ra_chunk_key cfg p off) bs c a e)
